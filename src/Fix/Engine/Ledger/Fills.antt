-- ===== src/Fix/Engine/Ledger/Fills.antt =====
-- internal/fix/engine.go: printSlice and the orders it leaves.
use funding_carry.Prelude.{
  ℕ, zero, suc, ◌≤◌, ◌≡◌, refl, List, [], ◌∷◌, none, some, true, false, length, drop, get_elem?,
  All, arith, Bool-cases, Option-cases, inl, inr, Option,
}
use mathlib.Core.Option.{some-injective}
use mathlib.Core.Path.{subst}
use funding_carry.Clock.{Time}
use funding_carry.Decimal.{Decimal, OrderLaws, equal}
use funding_carry.Decimal.Laws.{IntegerLaws, equal_trans, equal_sym}
use funding_carry.Fix.Fill.{exec_px}
use funding_carry.Fix.Fill.Slices.{total}
use funding_carry.Fix.Engine.State.{Order, Engine, Env, Fault, done}
use funding_carry.Fix.Engine.Handlers.{publish, filled_by, print_fill, print_slice}
use funding_carry.Fix.Engine.Ledger.{
  IsWorking, IsFiled, IsSound, publish-IsSound, get_elem?-drop, get_elem?-in_range,
}
use funding_carry.Dict.Laws.{AllEntries-insert, AllEntries-delete}

drop_end : {A : Type 0} (xs : List A) (n : ℕ) → length xs ≤ n → drop n xs ≡ []
drop_end [] zero h = refl
drop_end [] (suc n) h = refl
drop_end (x ∷ xs) zero h = ground arith
drop_end (x ∷ xs) (suc n) h = drop_end xs n (omega arith)

All-get_elem? :
    {A : Type 0} (P : A → Type 0) (xs : List A) (n : ℕ) (x : A)
    → get_elem? xs n ≡ some x
    → All P xs
    → P x
All-get_elem? P [] n x e h = cc
All-get_elem? P (y ∷ ys) zero x e h = subst P (some-injective y x e) h.0
All-get_elem? P (y ∷ ys) (suc n) x e h = All-get_elem? P ys n x e h.1

module _ {D : Type 0} ⦃dec : Decimal D⦄ (laws : OrderLaws dec) (ints : IntegerLaws dec) where
  -- What is filled and left after the next slice is what was filled and left before it.
  filled_by_whole :
      (o : Order D) (qty px : D)
      → IsWorking o
      → get_elem? o.slices o.next ≡ some qty
      → equal (dec.add (filled_by o qty px).cum_qty (total (drop (suc o.next) o.slices))) o.qty
        ≡ true
  unfolding filled_by
  filled_by_whole o qty px w e =
      let rest = total (drop (suc o.next) o.slices) in
      let before : equal (dec.add o.cum_qty (dec.add qty rest)) o.qty ≡ true =
        rw (get_elem?-drop o.slices o.next qty e) at w.whole in
      equal_trans laws (dec.add (dec.add o.cum_qty qty) rest) (dec.add o.cum_qty (dec.add qty rest))
        o.qty (ints.add_assoc o.cum_qty qty rest) before

  filled_by-IsWorking :
      (o : Order D) (qty px : D)
      → IsWorking o
      → get_elem? o.slices o.next ≡ some qty
      → done (filled_by o qty px) ≡ false
      → IsWorking (filled_by o qty px)
  unfolding filled_by done
  filled_by-IsWorking o qty px w e d = record {
    left = ground arith;
    positive = w.positive;
    whole = filled_by_whole o qty px w e;
  }

  filled_by_complete :
      (o : Order D) (qty px : D)
      → IsWorking o
      → get_elem? o.slices o.next ≡ some qty
      → done (filled_by o qty px) ≡ true
      → equal (filled_by o qty px).cum_qty o.qty ≡ true
  unfolding filled_by done
  filled_by_complete o qty px w e d =
      let sum = dec.add o.cum_qty qty in
      let last : drop (suc o.next) o.slices ≡ [] = drop_end o.slices (suc o.next) (ground arith) in
      let end : equal (dec.add sum dec.zero) o.qty ≡ true =
        rw last at (filled_by_whole o qty px w e) in
      equal_trans laws sum (dec.add sum dec.zero) o.qty
        (equal_sym laws (dec.add sum dec.zero) sum (ints.add_zero sum)) end

  -- A printed slice: the state is sound, and the order is working if it has not ended.
  abbrev pub IsPrinted : Order D × Engine D × Option Fault → Type 0
  IsPrinted r = IsSound (r.1, r.2) × (done r.0 ≡ false → IsWorking r.0)

  print_fill-IsPrinted :
      (env : Env D) (e : Engine D) (o : Order D) (qty : D) (now : Time)
      → IsSound (e, none)
      → IsWorking o
      → get_elem? o.slices o.next ≡ some qty
      → IsPrinted (print_fill env e o qty now)
  unfolding print_fill publish exec_px filled_by done
  print_fill-IsPrinted env e o qty now s w k =
      let px = exec_px o.side o.limit_px e.book e.fill.slippage_bps in
      let p = All-get_elem? _ o.slices o.next qty k w.positive in
      elim (Bool-cases (done (filled_by o qty px))) [
        | inl ended ↦ rw ended (
          publish-IsSound env _ _ (AllEntries-delete IsFiled o.cl_ord_id e.live s.live) s.ledger
              (record { complete = λ f. filled_by_complete o qty px w k ended }) (λ t. p),
          λ f. cc,
        )
        | inr more ↦
            let w' = filled_by-IsWorking o qty px w k more in
            rw more (
              publish-IsSound env _ _
                  (AllEntries-insert IsFiled o.cl_ord_id _ e.live (refl, w') s.live) s.ledger
                  (record { complete = λ f. cc }) (λ t. p),
              λ f. w',
            )
      ]

  pub print_slice-IsPrinted :
      (env : Env D) (e : Engine D) (o : Order D) (now : Time)
      → IsSound (e, none)
      → IsWorking o
      → IsPrinted (print_slice env e o now)
  unfolding print_slice
  print_slice-IsPrinted env e o now s w = elim (Option-cases (get_elem? o.slices o.next)) [
    | inl none_left ↦ absurd (get_elem?-in_range o.slices o.next w.left none_left)
    | inr (qty, k) ↦ rw (k, print_slice) (print_fill-IsPrinted env e o qty now s w k)
  ]
