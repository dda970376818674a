-- ===== src/Fix/Engine/Progress.antt =====
-- internal/fix/engine.go: an evaluation leaves no order due as it was, so the run loop does not spin.
use funding_carry.Prelude.{
  ◌+◌, ◌<◌, ◌≡◌, refl, List, none, some, get_elem?, length, arith, Bool-cases, Option-cases, inl,
  inr, Option, ◌⊎◌, String,
}
use funding_carry.Prelude.Text.{eq_refl}
use funding_carry.Clock.{Time}
use funding_carry.Decimal.{Decimal}
use funding_carry.Dict.{lookup, delete}
use funding_carry.Dict.Laws.{lookup-insert_self, lookup-delete}
use funding_carry.Fix.Terms.{OrdStatus, Text, Report}
use funding_carry.Fix.Fill.{exec_px, marketable}
use funding_carry.Fix.Engine.State.{Order, Engine, Env, Fault, done, next_latency, book_fresh}
use funding_carry.Fix.Engine.Handlers.{
  publish, is_ioc, finish, filled_by, print_fill, print_slice, defer, cancel_remainder, after_slice,
  evaluate,
}
use funding_carry.Fix.Engine.Ledger.{get_elem?-in_range}

module _ {D : Type 0} where
  -- The order under the id has left the book, or may not print yet, or has more fills behind it.
  abbrev pub IsAhead : Order D → Time → Option (Order D) → Type 0
  IsAhead o now none = Unit
  IsAhead o now (some o') = (now < o'.ready_at) ⊎ (o.next < o'.next)

module _ {D : Type 0} ⦃dec : Decimal D⦄ (env : Env D) where
  publish-live : (e : Engine D) (r : Report D) → (publish env e r).0.live ≡ e.live
  unfolding publish
  publish-live e r = ground arith

  lookup-delete_self : (k : String) (m : List (String × Order D)) → lookup k (delete k m) ≡ none
  lookup-delete_self k m = simp (lookup-delete, eq_refl)

  finish-IsAhead :
      (o p : Order D) (now : Time) (e : Engine D) (request : String) (status : OrdStatus) (t : Text)
      → IsAhead o now (lookup p.cl_ord_id (finish env e p now request status t).0.live)
  unfolding finish
  finish-IsAhead o p now e request status t =
      rw (publish-live _ _) (rw (lookup-delete_self p.cl_ord_id e.live) tt)

  cancel_remainder-IsAhead :
      (o p : Order D) (now : Time) (e : Engine D) (t : Text)
      → IsAhead o now (lookup p.cl_ord_id e.live)
      → IsAhead o now (lookup p.cl_ord_id (cancel_remainder env e p now t).0.live)
  unfolding cancel_remainder
  cancel_remainder-IsAhead o p now e t h = elim (Bool-cases (is_ioc p.tif)) [
    | inl ioc ↦ rw ioc (finish-IsAhead o p now e "" OrdStatus.canceled t)
    | inr gtc ↦ rw gtc h
  ]

  -- What a printed slice leaves: the order, further on, and the book's entry for it.
  abbrev IsPrinted : Order D → Time → Order D × Engine D × Option Fault → Type 0
  IsPrinted o now r =
      IsAhead o now (lookup o.cl_ord_id r.1.live)
      × (o.next < r.0.next)
      × (r.0.cl_ord_id ≡ o.cl_ord_id)

  print_fill-IsPrinted :
      (e : Engine D) (o : Order D) (qty : D) (now : Time)
      → IsPrinted o now (print_fill env e o qty now)
  unfolding print_fill filled_by
  print_fill-IsPrinted e o qty now =
      let px = exec_px o.side o.limit_px e.book e.fill.slippage_bps in
      elim (Bool-cases (done (filled_by o qty px))) [
        | inl ended ↦ rw ended (
          rw (publish-live _ _) (rw (lookup-delete_self o.cl_ord_id e.live) tt),
          omega arith,
          refl,
        )
        | inr more ↦ rw more (
          rw (publish-live _ _)
              (rw (lookup-insert_self o.cl_ord_id (filled_by o qty px) e.live) (inr (omega arith))),
          omega arith,
          refl,
        )
      ]

  print_slice-IsPrinted :
      (e : Engine D) (o : Order D) (now : Time)
      → o.next < length o.slices
      → IsPrinted o now (print_slice env e o now)
  unfolding print_slice
  print_slice-IsPrinted e o now h = elim (Option-cases (get_elem? o.slices o.next)) [
    | inl none_left ↦ absurd (get_elem?-in_range o.slices o.next h none_left)
    | inr (qty, k) ↦ rw (k, print_slice) (print_fill-IsPrinted e o qty now)
  ]

  after_slice-IsAhead :
      (now : Time) (o p : Order D) (e : Engine D) (f : Option Fault)
      → IsPrinted o now (p, e, f)
      → IsAhead o now (lookup o.cl_ord_id (after_slice env now (p, e, f)).0.live)
  unfolding after_slice
  after_slice-IsAhead now o p e (some f) h = h.0
  after_slice-IsAhead now o p e none h = elim (Bool-cases (done p)) [
    | inl ended ↦ rw ended h.0
    | inr more ↦
        let later = next_latency env e in
        rw more (
          rw (← h.2) (
            cancel_remainder-IsAhead o p now _ Text.cancel_ioc_remainder (
              rw
                (lookup-insert_self p.cl_ord_id (record p { ready_at = now + later.1 })
                  later.0.live)
                (inr h.1))))
  ]

  defer-IsAhead :
      (o : Order D) (now at : Time) (e : Engine D)
      → now < at
      → IsAhead o now (lookup o.cl_ord_id (defer e o at).live)
  defer-IsAhead o now at e h =
      rw (lookup-insert_self o.cl_ord_id (record o { ready_at = at }) e.live) (inl h)

  -- An order with a fill left, evaluated before the next reading of the book is due: it leaves the
  -- book, or it may not print before a later moment, or it has more fills behind it.
  pub evaluate-IsAhead :
      (e : Engine D) (o : Order D) (now : Time)
      → o.next < length o.slices
      → now < e.next_book_read
      → IsAhead o now (lookup o.cl_ord_id (evaluate env e o now).0.live)
  unfolding evaluate cancel_remainder finish
  evaluate-IsAhead e o now h k = elim (Bool-cases (book_fresh e now)) [
    | inl fresh ↦ rw fresh (elim (Bool-cases (marketable o.side o.limit_px e.book)) [
      | inl crossed ↦
          let r = print_slice env e o now in
          rw crossed (after_slice-IsAhead now o r.0 r.1 r.2 (print_slice-IsPrinted e o now h))
      | inr resting ↦ rw resting (
          cancel_remainder-IsAhead o o now _ Text.cancel_ioc_remainder
            (defer-IsAhead o now e.next_book_read e k))
    ])
    | inr stale ↦ rw stale (elim (Bool-cases (is_ioc o.tif)) [
      | inl ioc ↦
          rw (ioc, cancel_remainder)
            (finish-IsAhead o o now e "" OrdStatus.canceled Text.cancel_no_market)
      | inr gtc ↦ rw (gtc, cancel_remainder) (defer-IsAhead o now e.next_book_read e k)
    ])
  ]
