-- ===== src/Fix/Engine/Ledger/Orders.antt =====
-- internal/fix/engine.go: accept, finish, evaluate and a cancel, and the run that is made of them.
use funding_carry.Prelude.{
  ℕ, ◌≡◌, refl, List, [], ◌∷◌, none, some, true, All, arith, Bool-cases, Option-cases, inl, inr,
  Option, ◌==◌, String,
}
use funding_carry.Clock.{Time}
use funding_carry.Decimal.{Decimal, OrderLaws, less_than_or_equal, is_positive}
use funding_carry.Decimal.Laws.{IntegerLaws, max_int64, equal_trans}
use funding_carry.Dict.{lookup, values}
use funding_carry.Dict.Laws.{AllEntries, AllEntries-insert, AllEntries-delete}
use funding_carry.Fix.Terms.{CancelRefusal, OrdStatus, Text, no_text, VenueId}
use funding_carry.Fix.Fill.{marketable, slice_sizes}
use funding_carry.Fix.Fill.Slices.{total, slice_sizes-total, slice_sizes_plan}
use funding_carry.Fix.Engine.State.{
  Submission, CancelRequest, Order, Engine, Env, Fault, FillModel, done, next_latency, book_fresh,
  mint_order,
}
use funding_carry.Fix.Engine.Handlers.{
  is_ioc, unsupported_text, refusal, refusal_after, reject, new_order, admit, accept, accept_or,
  finish, print_slice, defer, cancel_remainder, after_slice, evaluate, cancel_reject, refuse_cancel,
  cancel_requested,
}
use funding_carry.Fix.Engine.Loop.{
  Event, Reading, failed, missing, found, read_book, take_reading, run, new_engine,
}
use funding_carry.Fix.Engine.Loop.Induction.{IsInvariant, AllSubmitted, run_from_keeps}
use funding_carry.Fix.Engine.Ledger.{IsWorking, IsFiled, IsSound, publish-IsSound}
use funding_carry.Fix.Engine.Ledger.Fills.{IsPrinted, print_slice-IsPrinted}

module _ {D : Type 0} ⦃dec : Decimal D⦄ (laws : OrderLaws dec) (ints : IntegerLaws dec)
    (env : Env D) where
  finish-IsSound :
      (e : Engine D) (o : Order D) (at : Time) (request : String) (reason : Text)
      → IsSound (e, none)
      → IsSound (finish env e o at request OrdStatus.canceled reason)
  unfolding finish
  finish-IsSound e o at request reason s =
      publish-IsSound env _ _ (AllEntries-delete IsFiled o.cl_ord_id e.live s.live) s.ledger
        (record { complete = λ f. cc }) (λ t. cc)

  cancel_remainder-IsSound :
      (e : Engine D) (o : Order D) (now : Time) (reason : Text)
      → IsSound (e, none)
      → IsSound (cancel_remainder env e o now reason)
  unfolding cancel_remainder
  cancel_remainder-IsSound e o now reason s = elim (Bool-cases (is_ioc o.tif)) [
    | inl ioc ↦ rw ioc (finish-IsSound e o now "" reason s)
    | inr gtc ↦ rw gtc s
  ]

  defer-IsSound :
      (e : Engine D) (o : Order D) (at : Time)
      → IsSound (e, none)
      → IsWorking o
      → IsSound (defer e o at, none)
  defer-IsSound e o at s w = record {
    live =
        AllEntries-insert IsFiled o.cl_ord_id _ e.live
          (refl, record { left = w.left; positive = w.positive; whole = w.whole }) s.live;
    ledger = s.ledger;
    in_range = s.in_range;
  }

  next_latency-IsSound : (e : Engine D) → IsSound (e, none) → IsSound ((next_latency env e).0, none)
  unfolding next_latency
  next_latency-IsSound e s = elim (Bool-cases (e.fill.latency == 0)) [
    | inl none_due ↦ rw none_due s
    | inr some_due ↦
        rw some_due (record { live = s.live; ledger = s.ledger; in_range = s.in_range })
  ]

  after_slice-IsSound :
      (now : Time) (o : Order D) (e : Engine D) (f : Option Fault)
      → IsPrinted laws ints (o, e, f)
      → IsSound (after_slice env now (o, e, f))
  unfolding after_slice
  after_slice-IsSound now o e (some f) p = p.0
  after_slice-IsSound now o e none p = elim (Bool-cases (done o)) [
    | inl ended ↦ rw ended p.0
    | inr more ↦ rw more (
        cancel_remainder-IsSound _ o now Text.cancel_ioc_remainder
          (defer-IsSound _ o _ (next_latency-IsSound e p.0) (p.1 more)))
  ]

  evaluate-IsSound :
      (e : Engine D) (o : Order D) (now : Time)
      → IsWorking o
      → IsSound (e, none)
      → IsSound (evaluate env e o now)
  unfolding evaluate
  evaluate-IsSound e o now w s = elim (Bool-cases (book_fresh e now)) [
    | inl fresh ↦ rw fresh (elim (Bool-cases (marketable o.side o.limit_px e.book)) [
      | inl crossed ↦
          let p = print_slice env e o now in
          rw crossed
            (after_slice-IsSound now p.0 p.1 p.2 (print_slice-IsPrinted laws ints env e o now s w))
      | inr resting ↦ rw resting (
          cancel_remainder-IsSound _ o now Text.cancel_ioc_remainder
            (defer-IsSound e o e.next_book_read s w))
    ])
    | inr stale ↦ rw stale (elim (Bool-cases (is_ioc o.tif)) [
      | inl ioc ↦ rw ioc (cancel_remainder-IsSound _ o now Text.cancel_no_market s)
      | inr gtc ↦ rw gtc (
          cancel_remainder-IsSound _ o now Text.cancel_no_market
            (defer-IsSound e o e.next_book_read s w))
    ])
  ]

  reject-IsSound :
      (e : Engine D) (s : Submission D) (t : Text) → IsSound (e, none) → IsSound (reject env e s t)
  unfolding reject
  reject-IsSound e s t h =
      publish-IsSound env _ _ h.live h.ledger (record { complete = λ f. cc }) (λ t. cc)

  abbrev pub IsBounded : Submission D → Type 0
  IsBounded s = less_than_or_equal s.qty (dec.from_int max_int64) ≡ true

  new_order-IsWorking :
      (e : Engine D) (s : Submission D) (id : VenueId) (latency : ℕ)
      → IsBounded s
      → is_positive s.qty ≡ true
      → IsWorking (new_order e s id latency)
  unfolding new_order
  new_order-IsWorking e s id latency b p =
      let slices = slice_sizes s.qty e.fill.partial_threshold e.fill.partial_slices in
      let plan =
        slice_sizes_plan laws ints s.qty e.fill.partial_threshold e.fill.partial_slices p in
      let sum =
        slice_sizes-total laws ints s.qty e.fill.partial_threshold e.fill.partial_slices
          (ground (arith, laws.cmp_flip s.qty dec.zero)) b in
      record {
        left = plan.1;
        positive = plan.0;
        whole =
            equal_trans laws (dec.add dec.zero (total slices)) (total slices) s.qty
              (ints.zero_add (total slices)) sum;
      }

  admit-IsSound :
      (e : Engine D) (s : Submission D)
      → IsBounded s
      → is_positive s.qty ≡ true
      → IsSound (e, none)
      → IsSound (admit env e s)
  unfolding admit
  admit-IsSound e s b p h =
      let minted = mint_order e.ids in
      let e' = next_latency env (record e { ids = minted.0 }) in
      let h' =
        next_latency-IsSound (record e { ids = minted.0 })
          (record { live = h.live; ledger = h.ledger; in_range = h.in_range }) in
      let o = new_order e s minted.1 e'.1 in
      publish-IsSound env _ _
        (AllEntries-insert IsFiled o.cl_ord_id o e'.0.live
          (refl, new_order-IsWorking e s minted.1 e'.1 b p) h'.live)
        h'.ledger (record { complete = λ f. cc }) (λ t. cc)

  accepted_positive :
      (e : Engine D) (s : Submission D) → refusal e s ≡ no_text → is_positive s.qty ≡ true
  unfolding refusal refusal_after unsupported_text
  accepted_positive e s h = ground arith

  accept_or-IsSound :
      (e : Engine D) (s : Submission D) (t : Text)
      → IsBounded s
      → refusal e s ≡ t
      → IsSound (e, none)
      → IsSound (accept_or env e s t)
  unfolding accept_or
  accept_or-IsSound e s no_text b q h = admit-IsSound e s b (accepted_positive e s q) h
  accept_or-IsSound e s t b q h = reject-IsSound e s t h

  refuse_cancel-IsSound :
      (e : Engine D) (c : CancelRequest) (status : OrdStatus) (reason : CancelRefusal)
      → IsSound (e, none)
      → IsSound (refuse_cancel env e c status reason)
  refuse_cancel-IsSound e c status reason h =
      elim (Bool-cases (env.sends (cancel_reject c status reason))) [
        | inl ok ↦ rw ok (record { live = h.live; ledger = (tt, h.ledger); in_range = λ f. cc })
        | inr gone ↦ rw gone (record { live = h.live; ledger = h.ledger; in_range = λ f. cc })
      ]

  cancel_requested-IsSound :
      (e : Engine D) (c : CancelRequest) → IsSound (e, none) → IsSound (cancel_requested env e c)
  unfolding cancel_requested
  cancel_requested-IsSound e c h = elim (Option-cases (lookup c.orig_cl_ord_id e.live)) [
    | inl gone ↦
        rw (gone, cancel_requested)
          (elim (Option-cases (lookup c.orig_cl_ord_id e.final)) [
            | inl never ↦ rw never (refuse_cancel-IsSound e c _ _ h)
            | inr (status, over) ↦ rw over (refuse_cancel-IsSound e c _ _ h)
          ])
    | inr (o, live) ↦
        rw (live, cancel_requested) (finish-IsSound e o c.at c.cl_ord_id Text.cancel_requested h)
  ]

  take_reading-IsSound :
      (e : Engine D) (r : Reading D) → IsSound (e, none) → IsSound (take_reading e r, none)
  take_reading-IsSound e failed h = h
  take_reading-IsSound e missing h = h
  take_reading-IsSound e (found b) h = record {
    live = h.live;
    ledger = h.ledger;
    in_range = h.in_range;
  }

  read_book-IsSound :
      (e : Engine D) (at : Time) (r : Reading D)
      → IsSound (e, none)
      → IsSound (read_book e at r, none)
  unfolding read_book
  read_book-IsSound e at r h =
      take_reading-IsSound _ r (record { live = h.live; ledger = h.ledger; in_range = h.in_range })

  values-IsWorking : (m : List (String × Order D)) → AllEntries IsFiled m → All IsWorking (values m)
  unfolding values
  values-IsWorking [] h = tt
  values-IsWorking ((k, o) ∷ m) h = (h.0.1, values-IsWorking m h.1)

  invariant : IsInvariant env IsBounded IsWorking IsSound
  unfolding accept
  invariant = record {
    reads = read_book-IsSound;
    lives = λ e h. values-IsWorking e.live h.live;
    accepts = λ e s b h. accept_or-IsSound e s (refusal e s) b refl h;
    cancels = cancel_requested-IsSound;
    evaluates = evaluate-IsSound;
  }

  -- Whatever a new engine is sent, where no order is for more contracts than an int64 holds: every
  -- order on the book has fills left, positive ones, and what is filled and what is left make up the
  -- order; in the outbox each report of a fill stands directly after its own record, and a report of
  -- a filled order reports the whole of it; and no slice is read that is not there.
  pub run-IsSound :
      (product : String) (fill : FillModel D) (run_id : String)
      → (at : Time) (r : Reading D) (evs : List (Event D)) → AllSubmitted IsBounded evs
      → IsSound (run env (new_engine product fill run_id) at r evs)
  unfolding run new_engine
  run-IsSound product fill run_id at r evs a =
      run_from_keeps invariant evs _ none a
        (read_book-IsSound _ at r (record { live = tt; ledger = tt; in_range = λ f. cc }))
