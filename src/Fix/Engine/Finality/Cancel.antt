-- ===== src/Fix/Engine/Finality/Cancel.antt =====
-- internal/fix/engine.go: what is left of an order after its cancel.
use funding_carry.Prelude.{
  ◌≡◌, refl, List, [], ◌∷◌, none, some, true, arith, Bool-cases, inl, inr, Option, String,
}
use funding_carry.Prelude.Text.{str_eq, eq_iff}
use funding_carry.Clock.{Time}
use funding_carry.Decimal.{Decimal}
use funding_carry.Dict.{lookup, delete}
use funding_carry.Dict.Laws.{AllEntries, AllEntries-lookup, lookup-insert_self}
use funding_carry.Fix.Terms.{too_late_to_cancel, OrdStatus, Text, reject_duplicate}
use funding_carry.Fix.Engine.State.{
  Submission, CancelRequest, Order, Engine, Env, Fault, FillModel, known,
}
use funding_carry.Fix.Engine.Handlers.{
  refusal, reject, accept, finish, refuse_cancel, cancel_requested,
}
use funding_carry.Fix.Engine.Loop.{Event, Reading, read_book, run_from, run, new_engine}
use funding_carry.Fix.Engine.Moves.{publish-IsGood}
use funding_carry.Fix.Engine.Moves.Orders.{final_known, read_book-IsGood, run_from-IsGood}
use funding_carry.Fix.Engine.Finality.{Past, IsPast-IsKept, IsOther, IsPast}

-- The past of a state, whatever its outcome.
abbrev pub IsPastIn : {D : Type 0} → Past → Engine D × Option Fault → Type 0
IsPastIn past r = IsPast past r.0.live r.0.final

module _ {D : Type 0} ⦃dec : Decimal D⦄ where
  -- After its deletion a key is at no entry of a book that files its orders by their ids.
  delete-IsOther :
      (k : String) (t : OrdStatus) (m : List (String × Order D))
      → AllEntries (IsOther none) m
      → AllEntries (IsOther (some (k, t))) (delete k m)
  unfolding delete
  delete-IsOther k t [] h = tt
  delete-IsOther k t ((j, o) ∷ m) h = elim (Bool-cases (str_eq j k)) [
    | inl same ↦ rw same (delete-IsOther k t m h.1)
    | inr other ↦ rw other ((h.0.0, λ q. cc ((eq_iff j k).1 q)), delete-IsOther k t m h.1)
  ]

  absent :
      (k : String) (t : OrdStatus) (m : List (String × Order D))
      → AllEntries (IsOther (some (k, t))) m
      → lookup k m ≡ none
  unfolding lookup
  absent k t [] h = refl
  absent k t ((j, o) ∷ m) h = ground (arith, eq_iff j k, absent k t m h.1)

module _ {D : Type 0} ⦃dec : Decimal D⦄ (env : Env D) where
  finish-IsPast_self :
      (e : Engine D) (k : String) (o : Order D) (at : Time) (request : String) (t : Text)
      → k ≡ o.cl_ord_id
      → IsPastIn none (e, none)
      → IsPastIn (some (k, OrdStatus.canceled)) (finish env e o at request OrdStatus.canceled t)
  unfolding finish
  finish-IsPast_self e k o at request t q h =
      publish-IsGood (IsPast-IsKept (some (k, OrdStatus.canceled))) env _ _ (
        rw (← q) (delete-IsOther k OrdStatus.canceled e.live h.0),
        rw (← q) (lookup-insert_self k OrdStatus.canceled e.final),
      )

  -- Any history of a new engine leaves a book that files its orders by their ids.
  run-IsPast :
      (product : String) (fill : FillModel D) (run_id : String)
      → (at : Time) (r : Reading D) (evs : List (Event D))
      → IsPastIn none ((run env (new_engine product fill run_id) at r evs).0, none)
  unfolding run new_engine
  run-IsPast product fill run_id at r evs =
      let e = new_engine product fill run_id in
      let h =
        run_from-IsGood (IsPast-IsKept none) env evs (read_book e at r, none)
          (read_book-IsGood (IsPast-IsKept none) env e at r (tt, tt)) in
      (h.0, tt)

  cancel_requested-IsPast_self :
      (e : Engine D) (c : CancelRequest) (o : Order D)
      → lookup c.orig_cl_ord_id e.live ≡ some o
      → IsPastIn none (e, none)
      → IsPastIn (some (c.orig_cl_ord_id, OrdStatus.canceled)) (cancel_requested env e c)
  unfolding cancel_requested
  cancel_requested-IsPast_self e c o live h =
      let filed = AllEntries-lookup (IsOther none) c.orig_cl_ord_id o e.live live h.0 in
      rw (live, cancel_requested)
        (finish-IsPast_self e c.orig_cl_ord_id o c.at c.cl_ord_id Text.cancel_requested filed.0 h)

  refusal-known :
      (e : Engine D) (s : Submission D)
      → known e s.cl_ord_id ≡ true
      → refusal e s ≡ reject_duplicate
  unfolding refusal
  refusal-known e s h = rw h refl

  cancel_requested-final :
      (e : Engine D) (d : CancelRequest) (t : OrdStatus)
      → lookup d.orig_cl_ord_id e.live ≡ none
      → lookup d.orig_cl_ord_id e.final ≡ some t
      → cancel_requested env e d ≡ refuse_cancel env e d t too_late_to_cancel
  unfolding cancel_requested
  cancel_requested-final e d t l f = rw (l, cancel_requested) (rw f refl)

  pub accept-known :
      (e : Engine D) (s : Submission D)
      → known e s.cl_ord_id ≡ true
      → accept env e s ≡ reject env e s reject_duplicate
  unfolding accept
  accept-known e s h = rw (refusal-known e s h) refl

  -- The end of an order, as the client can see it: off the book, with a status, a cancel of it
  -- refused as too late with that status, and an order under its id refused as a duplicate.
  abbrev pub IsEnded : String → OrdStatus → Engine D → CancelRequest → Submission D → Type 0
  IsEnded k t e d s =
      (lookup k e.live ≡ none)
      × (lookup k e.final ≡ some t)
      × (cancel_requested env e d ≡ refuse_cancel env e d t too_late_to_cancel)
      × (accept env e s ≡ reject env e s reject_duplicate)

  IsPast-IsEnded :
      (k : String) (t : OrdStatus) (r : Engine D × Option Fault) (d : CancelRequest)
      (s : Submission D)
      → d.orig_cl_ord_id ≡ k
      → s.cl_ord_id ≡ k
      → IsPastIn (some (k, t)) r
      → IsEnded k t r.0 d s
  IsPast-IsEnded k t r d s p q h =
      let gone = absent k t r.0.live h.0 in
      (
        gone,
        h.1,
        cancel_requested-final r.0 d t (rw p gone) (rw p h.1),
        accept-known r.0 s (rw q (final_known r.0 k t h.1)),
      )

  -- A run of a new engine in which a live order's cancel is asked for at some point: whatever comes
  -- after, the order is off the book with the status CANCELED, a further cancel of it is refused as
  -- too late with that status, and an order under its id is refused as a duplicate.
  pub cancel_requested-run_from :
      (product : String) (fill : FillModel D) (run_id : String)
      → (at : Time) (r : Reading D) (before after : List (Event D))
      → (c d : CancelRequest) (s : Submission D) (o : Order D)
      → lookup c.orig_cl_ord_id (run env (new_engine product fill run_id) at r before).0.live
        ≡ some o
      → d.orig_cl_ord_id ≡ c.orig_cl_ord_id
      → s.cl_ord_id ≡ c.orig_cl_ord_id
      → IsEnded c.orig_cl_ord_id OrdStatus.canceled
          (run_from env
            (cancel_requested env (run env (new_engine product fill run_id) at r before).0 c)
            after).0
          d
          s
  cancel_requested-run_from product fill run_id at r before after c d s o live p q =
      let e = (run env (new_engine product fill run_id) at r before).0 in
      let ended =
        cancel_requested-IsPast_self e c o live (run-IsPast product fill run_id at r before) in
      IsPast-IsEnded c.orig_cl_ord_id OrdStatus.canceled
        (run_from env (cancel_requested env e c) after) d s p q
        (run_from-IsGood (IsPast-IsKept (some (c.orig_cl_ord_id, OrdStatus.canceled))) env after
          (cancel_requested env e c) ended)
