-- ===== src/Fix/Engine/Identity.antt =====
-- internal/fix/engine.go: a ClOrdID is accepted once.
use funding_carry.Prelude.{
  ◌≡◌, ◌≢◌, refl, List, All, [], ◌∷◌, none, true, arith, Option-cases, inl, inr, String,
}
use funding_carry.Prelude.Text.{eq_iff}
use funding_carry.Decimal.{Decimal}
use funding_carry.Dict.{lookup}
use funding_carry.Dict.Laws.{lookup-insert, lookup-delete, lookup-insert_self}
use funding_carry.Fix.Terms.{OrdStatus, no_text, reject_duplicate}
use funding_carry.Fix.Engine.State.{Submission, Order, Engine, Env, known, next_latency, mint_order}
use funding_carry.Fix.Engine.Handlers.{refusal, reject, new_order, admit, accept, accept_or}
use funding_carry.Fix.Engine.Loop.{Event, run_from}
use funding_carry.Fix.Engine.Moves.{IsKept, IsGood, publish-IsGood}
use funding_carry.Fix.Engine.Moves.Orders.{run_from-IsGood}
use funding_carry.Fix.Engine.Finality.Cancel.{accept-known}

module _ {D : Type 0} where
  -- The id is that of a live or of a final order.
  abbrev pub IsTaken : String → List (String × Order D) → List (String × OrdStatus) → Type 0
  IsTaken k live final = lookup k live ≡ none → lookup k final ≢ none

  unit_entries : (l : List (String × Order D)) → All (λ e. Unit {0}) l
  unit_entries [] = tt
  unit_entries (e ∷ l) = (tt, unit_entries l)

  IsTaken-IsKept : (k : String) → IsKept {D = D} (λ j. Unit) (IsTaken k)
  IsTaken-IsKept k = record {
    files = λ o l f a h. ground (arith, lookup-insert o.cl_ord_id k o l, eq_iff o.cl_ord_id k);
    ends = λ o s l f a h. ground (
      arith,
      lookup-insert o.cl_ord_id k s f,
      lookup-delete o.cl_ord_id k l,
      eq_iff o.cl_ord_id k,
    );
    held = λ l f h. unit_entries l;
    fresh = λ j l f p q h. tt;
  }

  known-IsTaken : (e : Engine D) (k : String) → IsTaken k e.live e.final → known e k ≡ true
  unfolding known
  known-IsTaken e k h = elim (Option-cases (lookup k e.live)) [
    | inr (o, l) ↦ rw (l, known) refl
    | inl l ↦ elim (Option-cases (lookup k e.final)) [
      | inl f ↦ absurd (h l f)
      | inr (s, f) ↦ rw (l, known) (rw f refl)
    ]
  ]

module _ {D : Type 0} ⦃dec : Decimal D⦄ (env : Env D) where
  admit-IsTaken :
      (e : Engine D) (s : Submission D) → IsGood (IsTaken-IsKept s.cl_ord_id) (admit env e s)
  unfolding admit new_order
  admit-IsTaken e s =
      let minted = mint_order e.ids in
      let e' = next_latency env (record e { ids = minted.0 }) in
      publish-IsGood (IsTaken-IsKept s.cl_ord_id) env _ _
        (λ l f. cc (lookup-insert_self s.cl_ord_id (new_order e s minted.1 e'.1) e'.0.live))

  accept-IsTaken :
      (e : Engine D) (s : Submission D)
      → refusal e s ≡ no_text
      → IsGood (IsTaken-IsKept s.cl_ord_id) (accept env e s)
  unfolding accept accept_or
  accept-IsTaken e s h = rw h (admit-IsTaken e s)

  -- An order that was accepted has used up its ClOrdID: whatever comes in between, another order
  -- under it is rejected as a duplicate.
  pub accept-run_from :
      (e : Engine D) (s t : Submission D) (evs : List (Event D))
      → refusal e s ≡ no_text
      → t.cl_ord_id ≡ s.cl_ord_id
      → accept env (run_from env (accept env e s) evs).0 t
        ≡ reject env (run_from env (accept env e s) evs).0 t reject_duplicate
  accept-run_from e s t evs h q =
      let e' = (run_from env (accept env e s) evs).0 in
      let taken =
        run_from-IsGood (IsTaken-IsKept s.cl_ord_id) env evs (accept env e s)
          (accept-IsTaken e s h) in
      accept-known env e' t (rw q (known-IsTaken e' s.cl_ord_id taken))
