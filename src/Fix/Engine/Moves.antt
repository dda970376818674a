-- ===== src/Fix/Engine/Moves.antt =====
-- internal/fix/engine.go: the moves of the book, which are to file an order and to end one: what these
-- keep, every handler keeps.
pub mod Orders
use funding_carry.Prelude.{
  ◌+◌, ◌≡◌, refl, sym, List, [], ◌∷◌, none, some, get_elem?, true, false, All, arith, Bool-cases,
  Option-cases, inl, inr, Option, ◌≢◌, ◌==◌, String, if◌then◌else◌,
}
use funding_carry.Prelude.Text.{str_eq, eq_iff}
use funding_carry.Clock.{Time}
use funding_carry.Decimal.{Decimal, is_positive}
use funding_carry.Dict.{lookup, insert, delete, values}
use funding_carry.Dict.Laws.{
  AllEntries, AllEntries-insert, AllEntries-delete, AllEntries-lookup, lookup-insert,
}
use funding_carry.Fix.Terms.{CancelRefusal, OrdStatus, Text, no_text, Report}
use funding_carry.Fix.Fill.{exec_px, marketable}
use funding_carry.Fix.Engine.State.{
  Submission, CancelRequest, Order, Engine, Env, Fault, done, next_latency, book_fresh, known,
}
use funding_carry.Fix.Engine.Handlers.{
  publish, is_ioc, unsupported_text, refusal, refusal_after, reject, new_order, admit, accept,
  accept_or, finish, filled_by, print_fill, print_slice, defer, cancel_remainder, after_slice,
  evaluate, cancel_reject, refuse_cancel, cancel_requested,
}
use funding_carry.Fix.Engine.Loop.{
  Event, Reading, failed, missing, found, read_book, take_reading, run_from, run, new_engine,
}
use funding_carry.Fix.Engine.Loop.Induction.{IsInvariant, AllSubmitted, run_from_keeps}

-- What an order is filed, refiled or ended with keeps `G`, a property of the live and of the final
-- orders; `Q` is what it asks of the order's id.
pub record IsKept {D : Type 0} (Q : String → Type 0)
    (G : List (String × Order D) → List (String × OrdStatus) → Type 0) : Type 0 where
  pub files :
      (o : Order D) (l : List (String × Order D)) (f : List (String × OrdStatus))
      → Q o.cl_ord_id
      → G l f
      → G (insert o.cl_ord_id o l) f
  pub ends :
      (o : Order D) (s : OrdStatus) (l : List (String × Order D)) (f : List (String × OrdStatus))
      → Q o.cl_ord_id
      → G l f
      → G (delete o.cl_ord_id l) (insert o.cl_ord_id s f)
  pub held :
      (l : List (String × Order D)) (f : List (String × OrdStatus))
      → G l f
      → AllEntries (λ k o. Q o.cl_ord_id) l
  pub fresh :
      (k : String) (l : List (String × Order D)) (f : List (String × OrdStatus))
      → lookup k l ≡ none
      → lookup k f ≡ none
      → G l f
      → Q k

module _ {D : Type 0} ⦃dec : Decimal D⦄ {Q : String → Type 0}
    {G : List (String × Order D) → List (String × OrdStatus) → Type 0} (kept : IsKept Q G) where
  abbrev pub IsGood : Engine D × Option Fault → Type 0
  IsGood r = G r.0.live r.0.final

  module _ (env : Env D) where
    pub publish-IsGood : (e : Engine D) (r : Report D) → IsGood (e, none) → IsGood (publish env e r)
    unfolding publish
    publish-IsGood e r h = elim (Bool-cases (is_positive r.last_qty)) [
      | inl moved ↦
          rw moved
            (elim (Bool-cases (env.records r)) [ inl ok ↦ rw ok (h) | inr gone ↦ rw gone (h) ])
      | inr still ↦ rw still (h)
    ]

    abbrev pub IsAway : Order D → Type 0
    IsAway o = Q o.cl_ord_id

    pub finish-IsGood :
        (e : Engine D) (o : Order D) (at : Time) (request : String) (status : OrdStatus) (t : Text)
        → IsAway o
        → IsGood (e, none)
        → IsGood (finish env e o at request status t)
    unfolding finish
    finish-IsGood e o at request status t a h =
        publish-IsGood _ _ (kept.ends o status e.live e.final a h)

    pub cancel_remainder-IsGood :
        (e : Engine D) (o : Order D) (now : Time) (t : Text)
        → IsAway o
        → IsGood (e, none)
        → IsGood (cancel_remainder env e o now t)
    unfolding cancel_remainder
    cancel_remainder-IsGood e o now t a h = elim (Bool-cases (is_ioc o.tif)) [
      | inl ioc ↦ rw ioc (finish-IsGood e o now "" OrdStatus.canceled t a h)
      | inr gtc ↦ rw gtc h
    ]

    pub defer-IsGood :
        (e : Engine D) (o : Order D) (at : Time)
        → IsAway o
        → IsGood (e, none)
        → IsGood (defer e o at, none)
    defer-IsGood e o at a h = kept.files (record o { ready_at = at }) e.live e.final a h

    pub next_latency-IsGood :
        (e : Engine D) → IsGood (e, none) → IsGood ((next_latency env e).0, none)
    unfolding next_latency
    next_latency-IsGood e h = elim (Bool-cases (e.fill.latency == 0)) [
      | inl none_due ↦ rw none_due h
      | inr some_due ↦ rw some_due (h)
    ]

    abbrev IsPrinted : Order D × Engine D × Option Fault → Type 0
    IsPrinted r = IsGood (r.1, r.2) × IsAway r.0

    print_fill-IsPrinted :
        (e : Engine D) (o : Order D) (qty : D) (now : Time)
        → IsAway o
        → IsGood (e, none)
        → IsPrinted (print_fill env e o qty now)
    unfolding print_fill filled_by
    print_fill-IsPrinted e o qty now a h =
        let px = exec_px o.side o.limit_px e.book e.fill.slippage_bps in
        elim (Bool-cases (done (filled_by o qty px))) [
          | inl ended ↦
              rw ended (publish-IsGood _ _ (kept.ends o OrdStatus.filled e.live e.final a h), a)
          | inr more ↦
              rw more (publish-IsGood _ _ (kept.files (filled_by o qty px) e.live e.final a h), a)
        ]

    pub print_slice-IsPrinted :
        (e : Engine D) (o : Order D) (now : Time)
        → IsAway o
        → IsGood (e, none)
        → IsPrinted (print_slice env e o now)
    unfolding print_slice
    print_slice-IsPrinted e o now a h = elim (Option-cases (get_elem? o.slices o.next)) [
      | inl none_left ↦ rw (none_left, print_slice) (h, a)
      | inr (qty, k) ↦ rw (k, print_slice) (print_fill-IsPrinted e o qty now a h)
    ]

    pub after_slice-IsGood :
        (now : Time) (o : Order D) (e : Engine D) (f : Option Fault)
        → IsPrinted (o, e, f)
        → IsGood (after_slice env now (o, e, f))
    unfolding after_slice
    after_slice-IsGood now o e (some f) p = p.0
    after_slice-IsGood now o e none p =
        let later = next_latency env e in
        elim (Bool-cases (done o)) [
          | inl ended ↦ rw ended p.0
          | inr more ↦ rw more (
              cancel_remainder-IsGood (defer later.0 o (now + later.1)) o now
                Text.cancel_ioc_remainder p.1
                (defer-IsGood later.0 o (now + later.1) p.1 (next_latency-IsGood e p.0)))
        ]
