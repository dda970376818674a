-- ===== src/Fix/Engine/Ledger.antt =====
-- internal/fix/engine.go: each fill is recorded before it is reported, and the fills of an order
-- sum to it.
pub mod Fills
pub mod Orders
use funding_carry.Prelude.{
  ℕ, zero, suc, ◌<◌, ◌≡◌, refl, List, [], ◌∷◌, Option, none, some, Bool, true, false, length, drop,
  get_elem?, All, arith, Bool-cases, Option-cases, inl, inr, if◌then◌else◌, ◌≢◌, leb, String,
}
use funding_carry.Decimal.{Decimal, OrderLaws, equal, is_positive}
use funding_carry.Decimal.Laws.{IntegerLaws}
use funding_carry.Fix.Terms.{Report, OrdStatus, ExecType}
use funding_carry.Fix.Fill.Slices.{total}
use funding_carry.Fix.Engine.State.{
  Order, Engine, Env, Fault, Output, recorded, sent, refused, no_slice, not_recorded, done, emit,
}
use funding_carry.Fix.Engine.Handlers.{publish}
use funding_carry.Dict.Laws.{AllEntries}

module _ {A : Type 0} where
  pub get_elem?-drop :
      (xs : List A) (n : ℕ) (x : A) → get_elem? xs n ≡ some x → drop n xs ≡ x ∷ drop (suc n) xs
  get_elem?-drop [] n x h = cc
  get_elem?-drop (y ∷ ys) zero x h = cc
  get_elem?-drop (y ∷ ys) (suc n) x h = get_elem?-drop ys n x h

  pub get_elem?-in_range : (xs : List A) (n : ℕ) → n < length xs → get_elem? xs n ≢ none
  get_elem?-in_range [] n h e = omega arith
  get_elem?-in_range (x ∷ xs) zero h e = cc
  get_elem?-in_range (x ∷ xs) (suc n) h e = get_elem?-in_range xs n (omega arith) e

absurd_test : (b : Bool) → b ≡ true → b ≡ false → ⊥
absurd_test b p q = cc

module _ {D : Type 0} ⦃dec : Decimal D⦄ where
  abbrev IsPositive : D → Type 0
  IsPositive x = is_positive x ≡ true

  -- An order on the book: its fills are positive, some are left, and what is filled and what is left
  -- make up the order.
  pub record IsWorking (o : Order D) : Type 0 where
    pub left : o.next < length o.slices
    pub positive : All IsPositive o.slices
    pub whole : equal (dec.add o.cum_qty (total (drop o.next o.slices))) o.qty ≡ true

  -- A report of a fill stands directly after its own record, and one that reports the order as
  -- filled reports the whole order.
  pub record IsTrue (r : Report D) : Type 0 where
    pub complete : r.ord_status ≡ OrdStatus.filled → equal r.cum_qty r.order_qty ≡ true

  abbrev Follows : Report D → List (Output D) → Type 0
  Follows r (recorded q ∷ xs) = r ≡ q
  Follows r _ = ⊥

  abbrev IsEntry : Output D → List (Output D) → Type 0
  IsEntry (recorded r) xs = IsTrue r
  IsEntry (sent r) xs = IsTrue r × (r.exec_type ≡ ExecType.trade → Follows r xs)
  IsEntry (refused r) xs = Unit

  abbrev pub IsLedger : List (Output D) → Type 0
  IsLedger [] = Unit
  IsLedger (x ∷ xs) = IsEntry x xs × IsLedger xs

  abbrev pub IsFiled : String → Order D → Type 0
  IsFiled k o = (k ≡ o.cl_ord_id) × IsWorking o

  -- A state with its outcome: the orders on the book are working, the outbox is in order, and no
  -- slice was read that is not there.
  pub record IsSound (r : Engine D × Option Fault) : Type 0 where
    pub live : AllEntries IsFiled r.0.live
    pub ledger : IsLedger r.0.outbox
    pub in_range : r.1 ≢ some no_slice

  module _ (env : Env D) where
    pub publish-IsSound :
        (e : Engine D) (r : Report D)
        → AllEntries IsFiled e.live
        → IsLedger e.outbox
        → IsTrue r
        → (r.exec_type ≡ ExecType.trade → IsPositive r.last_qty)
        → IsSound (publish env e r)
    unfolding publish
    publish-IsSound e r l h t p = elim (Bool-cases (is_positive r.last_qty)) [
      | inl moved ↦ rw moved (elim (Bool-cases (env.records r)) [
        | inl ok ↦
            rw ok (record { live = l; ledger = ((t, λ k. refl), (t, h)); in_range = λ w. cc })
        | inr gone ↦ rw gone (record { live = l; ledger = h; in_range = λ w. cc })
      ])
      | inr still ↦ rw still (record {
        live = l;
        ledger = ((t, λ k. absurd (absurd_test _ (p k) still)), h);
        in_range = λ w. cc;
      })
    ]
