-- ===== src/Fix/Engine/Moves/Orders.antt =====
-- internal/fix/engine.go: the handlers and the run, over what the moves of the book keep.
use funding_carry.Prelude.{
  ◌≡◌, refl, List, [], ◌∷◌, none, some, true, false, All, arith, Bool-cases, Option-cases, inl, inr,
  Option, String,
}
use funding_carry.Clock.{Time}
use funding_carry.Decimal.{Decimal}
use funding_carry.Dict.{lookup, values}
use funding_carry.Dict.Laws.{AllEntries, AllEntries-lookup}
use funding_carry.Fix.Terms.{CancelRefusal, OrdStatus, Text, no_text}
use funding_carry.Fix.Fill.{marketable}
use funding_carry.Fix.Engine.State.{
  Submission, CancelRequest, Order, Engine, Env, Fault, next_latency, book_fresh, known, mint_order,
}
use funding_carry.Fix.Engine.Handlers.{
  is_ioc, refusal, reject, new_order, admit, accept, accept_or, print_slice, defer, evaluate,
  cancel_reject, refuse_cancel, cancel_requested,
}
use funding_carry.Fix.Engine.Loop.{
  Event, submitted, cancel_asked, fired, Reading, failed, missing, found, read_book, take_reading,
  run_from,
}
use funding_carry.Fix.Engine.Loop.Induction.{IsInvariant, AllSubmitted, run_from_keeps}
use funding_carry.Fix.Engine.Moves.{
  IsKept, IsGood, IsAway, publish-IsGood, finish-IsGood, cancel_remainder-IsGood, defer-IsGood,
  next_latency-IsGood, after_slice-IsGood, print_slice-IsPrinted,
}

module _ {D : Type 0} where
  pub final_known :
      (e : Engine D) (k : String) (t : OrdStatus) → lookup k e.final ≡ some t → known e k ≡ true
  unfolding known
  final_known e k t h = ground arith

  unknown_live : (e : Engine D) (k : String) → known e k ≡ false → lookup k e.live ≡ none
  unfolding known
  unknown_live e k u = ground arith

  unknown_final : (e : Engine D) (k : String) → known e k ≡ false → lookup k e.final ≡ none
  unfolding known
  unknown_final e k u = ground arith

module _ {D : Type 0} ⦃dec : Decimal D⦄ {Q : String → Type 0}
    {G : List (String × Order D) → List (String × OrdStatus) → Type 0} (kept : IsKept Q G)
    (env : Env D) where
  evaluate-IsGood :
      (e : Engine D) (o : Order D) (now : Time)
      → Q o.cl_ord_id
      → IsGood kept (e, none)
      → IsGood kept (evaluate env e o now)
  unfolding evaluate
  evaluate-IsGood e o now a h =
      let cancel = λ (e' : Engine D) (t : Text). cancel_remainder-IsGood kept env e' o now t a in
      elim (Bool-cases (book_fresh e now)) [
        | inl fresh ↦ rw fresh (elim (Bool-cases (marketable o.side o.limit_px e.book)) [
          | inl crossed ↦
              let p = print_slice env e o now in
              rw crossed (
                after_slice-IsGood kept env now p.0 p.1 p.2
                  (print_slice-IsPrinted kept env e o now a h))
          | inr resting ↦ rw resting (
              cancel (defer e o e.next_book_read) Text.cancel_ioc_remainder
                (defer-IsGood kept env e o e.next_book_read a h))
        ])
        | inr stale ↦ rw stale (elim (Bool-cases (is_ioc o.tif)) [
          | inl ioc ↦ rw ioc (cancel e Text.cancel_no_market h)
          | inr gtc ↦ rw gtc (
              cancel (defer e o e.next_book_read) Text.cancel_no_market
                (defer-IsGood kept env e o e.next_book_read a h))
        ])
      ]

  -- An order that is accepted has a fresh id.
  pub accepted_unknown :
      (e : Engine D) (s : Submission D) → refusal e s ≡ no_text → known e s.cl_ord_id ≡ false
  unfolding refusal
  accepted_unknown e s h = ground arith

  accepted_fresh :
      (e : Engine D) (s : Submission D)
      → refusal e s ≡ no_text
      → IsGood kept (e, none)
      → Q s.cl_ord_id
  accepted_fresh e s q h =
      let u = accepted_unknown e s q in
      kept.fresh s.cl_ord_id e.live e.final (unknown_live e s.cl_ord_id u)
        (unknown_final e s.cl_ord_id u) h

  reject-IsGood :
      (e : Engine D) (s : Submission D) (t : Text)
      → IsGood kept (e, none)
      → IsGood kept (reject env e s t)
  unfolding reject
  reject-IsGood e s t h = publish-IsGood kept env _ _ (h)

  admit-IsGood :
      (e : Engine D) (s : Submission D)
      → Q s.cl_ord_id
      → IsGood kept (e, none)
      → IsGood kept (admit env e s)
  unfolding admit new_order
  admit-IsGood e s a h =
      let minted = mint_order e.ids in
      let e' = next_latency env (record e { ids = minted.0 }) in
      let h' = next_latency-IsGood kept env (record e { ids = minted.0 }) (h) in
      publish-IsGood kept env _ _
        (kept.files (new_order e s minted.1 e'.1) e'.0.live e'.0.final a h')

  accept_or-IsGood :
      (e : Engine D) (s : Submission D) (t : Text)
      → refusal e s ≡ t
      → IsGood kept (e, none)
      → IsGood kept (accept_or env e s t)
  unfolding accept_or
  accept_or-IsGood e s no_text q h = admit-IsGood e s (accepted_fresh e s q h) h
  accept_or-IsGood e s t q h = reject-IsGood e s t h

  refuse_cancel-IsGood :
      (e : Engine D) (c : CancelRequest) (status : OrdStatus) (reason : CancelRefusal)
      → IsGood kept (e, none)
      → IsGood kept (refuse_cancel env e c status reason)
  refuse_cancel-IsGood e c status reason h =
      elim (Bool-cases (env.sends (cancel_reject c status reason))) [
        | inl ok ↦ rw ok (h)
        | inr gone ↦ rw gone (h)
      ]

  cancel_requested-IsGood :
      (e : Engine D) (c : CancelRequest)
      → IsGood kept (e, none)
      → IsGood kept (cancel_requested env e c)
  unfolding cancel_requested
  cancel_requested-IsGood e c h = elim (Option-cases (lookup c.orig_cl_ord_id e.live)) [
    | inl gone ↦
        rw (gone, cancel_requested)
          (elim (Option-cases (lookup c.orig_cl_ord_id e.final)) [
            | inl never ↦ rw never (refuse_cancel-IsGood e c _ _ h)
            | inr (status, over) ↦ rw over (refuse_cancel-IsGood e c _ _ h)
          ])
    | inr (o, live) ↦
        let away =
          AllEntries-lookup (λ k o. Q o.cl_ord_id) c.orig_cl_ord_id o e.live live
            (kept.held e.live e.final h) in
        rw (live, cancel_requested)
          (finish-IsGood kept env e o c.at c.cl_ord_id OrdStatus.canceled Text.cancel_requested away
            h)
  ]

  take_reading-IsGood :
      (e : Engine D) (r : Reading D) → IsGood kept (e, none) → IsGood kept (take_reading e r, none)
  take_reading-IsGood e failed h = h
  take_reading-IsGood e missing h = h
  take_reading-IsGood e (found b) h = h

  pub read_book-IsGood :
      (e : Engine D) (at : Time) (r : Reading D)
      → IsGood kept (e, none)
      → IsGood kept (read_book e at r, none)
  unfolding read_book
  read_book-IsGood e at r h = take_reading-IsGood _ r (h)

  values-Away :
      (m : List (String × Order D))
      → AllEntries (λ k o. Q o.cl_ord_id) m
      → All (IsAway kept env) (values m)
  unfolding values
  values-Away [] h = tt
  values-Away ((k, o) ∷ m) h = (h.0, values-Away m h.1)

  abbrev IsAny : Submission D → Type 0
  IsAny s = Unit

  invariant : IsInvariant env IsAny (IsAway kept env) (IsGood kept)
  unfolding accept
  invariant = record {
    reads = read_book-IsGood;
    lives = λ e h. values-Away e.live (kept.held e.live e.final h);
    accepts = λ e s b h. accept_or-IsGood e s (refusal e s) refl h;
    cancels = cancel_requested-IsGood;
    evaluates = evaluate-IsGood;
  }

  all_allowed : (evs : List (Event D)) → AllSubmitted IsAny evs
  all_allowed [] = tt
  all_allowed (submitted s ∷ evs) = (tt, all_allowed evs)
  all_allowed (cancel_asked c ∷ evs) = all_allowed evs
  all_allowed (fired now at r ∷ evs) = all_allowed evs

  pub run_from-IsGood :
      (evs : List (Event D)) (r : Engine D × Option Fault)
      → IsGood kept r
      → IsGood kept (run_from env r evs)
  run_from-IsGood evs r h = run_from_keeps invariant evs r.0 r.1 (all_allowed evs) h
