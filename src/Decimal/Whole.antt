-- ===== src/Decimal/Whole.antt =====
-- The whole numbers as decimals: a concrete instance of the interface, with its laws.
pub mod Laws
use funding_carry.Prelude.{
  ◌≡◌, ℕ, suc, ◌+◌, ◌/◌, ◌^◌, Ordering, compare, true, false, Bool, if◌then◌else◌, arith,
}
use funding_carry.Prelude.Int.{ℤ, pos, negsuc, pos_part, neg_part, sub_ℕ, ◌+ℤ◌, ◌-ℤ◌, ◌*ℤ◌}
use funding_carry.Decimal.{Decimal, OrderLaws}

abbrev pub cmp_ℤ : ℤ → ℤ → Ordering
cmp_ℤ a b = compare (pos_part a + neg_part b) (pos_part b + neg_part a)

-- The quotient towards zero, by a natural number.
abbrev quotient : ℤ → ℕ → ℤ
quotient a n = sub_ℕ (pos_part a / n) (neg_part a / n)

unfoldable pub div_ℤ : ℤ → ℤ → ℤ
unfolding ◌-ℤ◌
div_ℤ a (pos n) = quotient a n
div_ℤ a (negsuc n) = pos 0 -ℤ quotient a (suc n)

unfoldable pub shift_ℤ : ℤ → ℤ → ℤ
unfolding ◌*ℤ◌
shift_ℤ a (pos n) = a *ℤ pos (10 ^ n)
shift_ℤ a (negsuc n) = quotient a (10 ^ suc n)

instance abbrev pub whole : Decimal ℤ
whole = record {
  zero = pos 0;
  one = pos 1;
  cmp = cmp_ℤ;
  add = ◌+ℤ◌;
  sub = ◌-ℤ◌;
  mul = ◌*ℤ◌;
  div = div_ℤ;
  shift = shift_ℤ;
  truncate = λ a n. a;
  round = λ a n. a;
  int_part = λ a. a;
  from_int = λ a. a;
}

pub whole-OrderLaws : OrderLaws whole
whole-OrderLaws = record {
  cmp_refl = λ a. ground arith;
  cmp_flip = λ a b. ground arith;
  le_trans = λ a b c h k. ground arith;
}
