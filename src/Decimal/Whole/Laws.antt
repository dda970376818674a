-- ===== src/Decimal/Whole/Laws.antt =====
-- The laws of the decimals, for the whole numbers.
use funding_carry.Prelude.{◌≡◌, ℕ, ◌*◌, ◌≤◌, true, arith, refl}
use funding_carry.Prelude.Int.{ℤ, pos, negsuc, ◌+ℤ◌, ◌-ℤ◌, ◌*ℤ◌}
use funding_carry.Decimal.{less_than_or_equal}
use funding_carry.Decimal.Whole.{whole, shift_ℤ}
use funding_carry.Decimal.Laws.{IntegerLaws, PriceLaws}

pub whole-IntegerLaws : IntegerLaws whole
unfolding ◌+ℤ◌
whole-IntegerLaws = record {
  from_int_cmp = λ a b. refl;
  from_int_zero = refl;
  from_int_add = λ a b. ground arith;
  add_cong = λ a b c d h k. ground arith;
  add_assoc = λ a b c. ground arith;
  zero_add = λ a. ground arith;
  add_zero = λ a. ground arith;
  int_part_whole = λ a h l m. ground arith;
}

le_mul : (x y : ℕ) → 1 ≤ y → x ≤ x * y
le_mul x y h = grind arith

mul_le : (x y : ℕ) → y ≤ 1 → x * y ≤ x
mul_le x y h = grind arith

abbrev AtMost : ℤ → ℤ → Type 0
AtMost a b = less_than_or_equal ⦃dec = whole⦄ a b ≡ true

mul_grows : (a k : ℤ) → AtMost (pos 0) a → AtMost (pos 1) k → AtMost a (a *ℤ k)
unfolding ◌*ℤ◌
mul_grows (pos x) (pos y) h l = ground (arith, le_mul x y)
mul_grows (negsuc x) k h l = ground arith
mul_grows (pos x) (negsuc y) h l = ground arith

mul_shrinks : (a k : ℤ) → AtMost (pos 0) a → AtMost k (pos 1) → AtMost (a *ℤ k) a
unfolding ◌*ℤ◌
mul_shrinks (pos x) (pos y) h l = ground (arith, mul_le x y)
mul_shrinks (negsuc x) k h l = ground arith
mul_shrinks (pos x) (negsuc y) h l = ground arith

shift_sign : (a n : ℤ) → AtMost (pos 0) a → AtMost (pos 0) (shift_ℤ a n)
unfolding shift_ℤ ◌*ℤ◌
shift_sign (pos x) (pos n) h = ground arith
shift_sign (pos x) (negsuc n) h = ground arith
shift_sign (negsuc x) n h = ground arith

pub whole-PriceLaws : PriceLaws whole
unfolding ◌+ℤ◌ ◌-ℤ◌
whole-PriceLaws = record {
  add_grows = λ a b h. ground arith;
  sub_shrinks = λ a b h. ground arith;
  mul_grows = mul_grows;
  mul_shrinks = mul_shrinks;
  shift_sign = shift_sign;
}
