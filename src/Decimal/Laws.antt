-- ===== src/Decimal/Laws.antt =====
-- What github.com/shopspring/decimal documents of its exact arithmetic, as far as the services rely
-- on it. Values are compared by `Equal`, for one value has many representations.
use funding_carry.Prelude.{◌≡◌, true, false, arith}
use funding_carry.Prelude.Int.{ℤ, pos, ◌+ℤ◌}
use funding_carry.Decimal.{Decimal, OrderLaws, equal, less_than, less_than_or_equal, greater_than}
use funding_carry.Decimal.Whole.{cmp_ℤ}

abbrev pub max_int64 : ℤ
max_int64 = pos 9223372036854775807

module _ {D : Type 0} (dec : Decimal D) where
  abbrev Equals : D → D → Type 0
  Equals a b = equal ⦃dec = dec⦄ a b ≡ true

  abbrev AtMost : D → D → Type 0
  AtMost a b = less_than_or_equal ⦃dec = dec⦄ a b ≡ true

-- Whole numbers: NewFromInt keeps order and sums, and IntPart inverts it on a whole number that an
-- int64 holds.
pub record IntegerLaws {D : Type 0} (dec : Decimal D) : Type 0 where
  pub from_int_cmp : (a b : ℤ) → dec.cmp (dec.from_int a) (dec.from_int b) ≡ cmp_ℤ a b
  pub from_int_zero : Equals dec (dec.from_int (pos 0)) dec.zero
  pub from_int_add :
      (a b : ℤ) → Equals dec (dec.add (dec.from_int a) (dec.from_int b)) (dec.from_int (a +ℤ b))
  pub add_cong :
      (a b c d : D) → Equals dec a b → Equals dec c d → Equals dec (dec.add a c) (dec.add b d)
  pub add_assoc : (a b c : D) → Equals dec (dec.add (dec.add a b) c) (dec.add a (dec.add b c))
  pub zero_add : (a : D) → Equals dec (dec.add dec.zero a) a
  pub add_zero : (a : D) → Equals dec (dec.add a dec.zero) a
  pub int_part_whole :
      (a : D)
      → Equals dec a (dec.truncate a (pos 0))
      → AtMost dec dec.zero a
      → AtMost dec a (dec.from_int max_int64)
      → Equals dec (dec.from_int (dec.int_part a)) a

-- Signs under the operations that a price goes through; Shift moves the decimal point.
pub record PriceLaws {D : Type 0} (dec : Decimal D) : Type 0 where
  pub add_grows : (a b : D) → AtMost dec dec.zero b → AtMost dec a (dec.add a b)
  pub sub_shrinks : (a b : D) → AtMost dec dec.zero b → AtMost dec (dec.sub a b) a
  pub mul_grows :
      (a k : D) → AtMost dec dec.zero a → AtMost dec dec.one k → AtMost dec a (dec.mul a k)
  pub mul_shrinks :
      (a k : D) → AtMost dec dec.zero a → AtMost dec k dec.one → AtMost dec (dec.mul a k) a
  pub shift_sign : (a : D) (n : ℤ) → AtMost dec dec.zero a → AtMost dec dec.zero (dec.shift a n)

module _ {D : Type 0} ⦃dec : Decimal D⦄ (laws : OrderLaws dec) where
  pub equal_sym : (a b : D) → equal a b ≡ true → equal b a ≡ true
  equal_sym a b h = ground (arith, laws.cmp_flip a b)

  pub le_of_equal : (a b : D) → equal a b ≡ true → less_than_or_equal a b ≡ true
  le_of_equal a b h = ground arith

  pub equal_of_le :
      (a b : D) → less_than_or_equal a b ≡ true → less_than_or_equal b a ≡ true → equal a b ≡ true
  equal_of_le a b h k = ground (arith, laws.cmp_flip a b)

  pub equal_trans : (x y z : D) → equal x y ≡ true → equal y z ≡ true → equal x z ≡ true
  equal_trans x y z h k =
      equal_of_le x z (laws.le_trans x y z (le_of_equal x y h) (le_of_equal y z k)) (
        laws.le_trans z y x (le_of_equal z y (equal_sym y z k)) (le_of_equal y x (equal_sym x y h)))

  -- What is above one of two equal values is above the other.
  pub lt_of_equal : (a b c : D) → less_than a b ≡ true → equal b c ≡ true → less_than a c ≡ true
  lt_of_equal a b c h k = ground (
    arith,
    laws.cmp_flip a c,
    laws.cmp_flip a b,
    laws.cmp_flip b c,
    laws.le_trans c a b,
    laws.le_trans b c a,
  )

  -- The orders both ways round, and their transitivity.
  pub lt_flip : (a b : D) → greater_than a b ≡ less_than b a
  lt_flip a b = ground (arith, laws.cmp_flip a b)

  pub lt_asymm : (a b : D) → less_than a b ≡ true → less_than b a ≡ false
  lt_asymm a b h = ground (arith, laws.cmp_flip a b)

  pub lt_trans : (a b c : D) → less_than a b ≡ true → less_than b c ≡ true → less_than a c ≡ true
  lt_trans a b c h k = ground (
    arith,
    laws.cmp_flip a b,
    laws.cmp_flip b c,
    laws.cmp_flip a c,
    laws.le_trans c a b,
    laws.le_trans a b c,
  )

  pub not_lt_trans :
      (a b c : D) → less_than a b ≡ false → less_than b c ≡ false → less_than a c ≡ false
  not_lt_trans a b c h k =
      ground (arith, laws.cmp_flip a b, laws.cmp_flip b c, laws.cmp_flip a c, laws.le_trans c b a)
