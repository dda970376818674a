-- ===== src/Decimal.antt =====
-- The part of github.com/shopspring/decimal that the services call, as an interface: the package is
-- not part of this repository. `cmp` is `Decimal.Cmp`, and the comparisons below are the methods
-- of the same names, which the package defines by it. `shift`, `truncate`, `round`, `int_part`
-- and `from_int` are Shift, Truncate, Round, IntPart and NewFromInt; an int64 is an integer here.
pub mod Whole
pub mod Laws
use funding_carry.Prelude.Int.{ℤ}
use funding_carry.Prelude.{◌≡◌, Bool, true, false, Ordering}

pub record Decimal (D : Type 0) : Type 0 where
  pub zero : D
  pub one : D
  pub cmp : D → D → Ordering
  pub add : D → D → D
  pub sub : D → D → D
  pub mul : D → D → D
  pub div : D → D → D
  pub shift : D → ℤ → D
  pub truncate : D → ℤ → D
  pub round : D → ℤ → D
  pub int_part : D → ℤ
  pub from_int : ℤ → D

abbrev pub flip : Ordering → Ordering
flip Ordering.lt = Ordering.gt
flip Ordering.eq = Ordering.eq
flip Ordering.gt = Ordering.lt

module _ {D : Type 0} ⦃dec : Decimal D⦄ where
  abbrev pub equal : D → D → Bool
  equal a b = elim (dec.cmp a b) [ Ordering.eq ↦ true | _ ↦ false ]

  abbrev pub less_than : D → D → Bool
  less_than a b = elim (dec.cmp a b) [ Ordering.lt ↦ true | _ ↦ false ]

  abbrev pub less_than_or_equal : D → D → Bool
  less_than_or_equal a b = elim (dec.cmp a b) [ Ordering.gt ↦ false | _ ↦ true ]

  abbrev pub greater_than : D → D → Bool
  greater_than a b = elim (dec.cmp a b) [ Ordering.gt ↦ true | _ ↦ false ]

  abbrev pub greater_than_or_equal : D → D → Bool
  greater_than_or_equal a b = elim (dec.cmp a b) [ Ordering.lt ↦ false | _ ↦ true ]

  abbrev pub is_zero : D → Bool
  is_zero a = equal a dec.zero

  abbrev pub is_positive : D → Bool
  is_positive a = greater_than a dec.zero

-- What the package documents of `Cmp`: it orders the values, and two representations of one value
-- compare as equal.
pub record OrderLaws {D : Type 0} (dec : Decimal D) : Type 0 where
  pub cmp_refl : (a : D) → dec.cmp a a ≡ Ordering.eq
  pub cmp_flip : (a b : D) → dec.cmp b a ≡ flip (dec.cmp a b)
  pub le_trans :
      (a b c : D)
      → less_than_or_equal ⦃dec = dec⦄ a b ≡ true
      → less_than_or_equal ⦃dec = dec⦄ b c ≡ true
      → less_than_or_equal ⦃dec = dec⦄ a c ≡ true
