-- ===== src/Fix/Fill/Slices.antt =====
-- The plan of an order's fills: its slices are positive, few enough, and sum to the order.
use funding_carry.Prelude.{
  ℕ, zero, suc, ◌+◌, ◌-◌, ◌*◌, ◌/◌, ◌≤◌, ◌<◌, max, ◌≡◌, refl, ap, ◌∙◌, List, [], ◌∷◌, ◌++◌, true,
  arith, not, ◌||◌, ltb, leb, if◌then◌else◌, replicate, length, All, Bool-cases, inl, inr,
}
use funding_carry.Prelude.Int.{ℤ, pos, negsuc, ◌+ℤ◌}
use funding_carry.Decimal.{Decimal, OrderLaws, equal, less_than_or_equal, is_positive}
use funding_carry.Decimal.Laws.{IntegerLaws, max_int64, equal_trans}
use funding_carry.Fix.Fill.{cut, whole_slices, slice_sizes}

module _ {D : Type 0} ⦃dec : Decimal D⦄ where
  abbrev pub total : List D → D
  total [] = dec.zero
  total (x ∷ xs) = dec.add x (total xs)

-- The integer arithmetic: `k` slices of `q / k`, and the remainder on the last.
base_le : (q k : ℕ) → 0 < k → (q / k) * (k - 1) + q / k ≤ q
base_le q k h = grind arith

base_pos : (q k : ℕ) → 0 < k → k ≤ q → 0 < q / k
base_pos q k h p = grind arith

pos-+ℤ : (a b : ℕ) → pos a +ℤ pos b ≡ pos (a + b)
unfolding ◌+ℤ◌
pos-+ℤ a b = ground arith

module _ {D : Type 0} ⦃dec : Decimal D⦄ (laws : OrderLaws dec) (ints : IntegerLaws dec) where
  total-replicate :
      (b m r : ℕ)
      → equal
          (total (replicate m (dec.from_int (pos b)) ++ dec.from_int (pos r) ∷ []))
          (dec.from_int (pos (b * m + r)))
        ≡ true
  total-replicate b zero r =
      let e : b * 0 + r ≡ r = omega arith in rw e (ints.add_zero (dec.from_int (pos r)))
  total-replicate b (suc m) r =
      let rest = total (replicate m (dec.from_int (pos b)) ++ dec.from_int (pos r) ∷ []) in
      let x = dec.from_int (pos b) in
      let y = dec.from_int (pos (b * m + r)) in
      let e : pos b +ℤ pos (b * m + r) ≡ pos (b * suc m + r) =
        pos-+ℤ b (b * m + r) ∙ ap pos (omega arith) in
      equal_trans laws (dec.add x rest) (dec.add x y) (dec.from_int (pos (b * suc m + r)))
        (ints.add_cong x x rest y (ground (arith, laws.cmp_refl x)) (total-replicate b m r))
        (rw (← e) (ints.from_int_add (pos b) (pos (b * m + r))))

  cut-total : (q k : ℕ) → 0 < k → equal (total (cut q k)) (dec.from_int (pos q)) ≡ true
  unfolding cut
  cut-total q k h =
      let base = q / k in
      let e : base * (k - 1) + (q - base * (k - 1)) ≡ q = omega (arith, base_le q k h) in
      rw e at (total-replicate base (k - 1) (q - base * (k - 1)))

  whole_slices-total :
      (qty : D) (n : ℕ) (q : ℤ)
      → equal (dec.from_int q) qty ≡ true
      → equal (total (whole_slices qty n q)) qty ≡ true
  unfolding whole_slices
  whole_slices-total qty n (negsuc q) e = ints.add_zero qty
  whole_slices-total qty n (pos q) e =
      let k = if ltb q n then q else n in
      elim (Bool-cases (leb k 1)) [
        | inl one ↦ rw one (ints.add_zero qty)
        | inr many ↦ rw many (
            equal_trans laws (total (cut q k)) (dec.from_int (pos q)) qty
              (cut-total q k (ground arith)) e)
      ]

  -- The fills that an order will print sum to the order exactly, for a quantity that is not negative
  -- and that an int64 holds.
  pub slice_sizes-total :
      (qty threshold : D) (n : ℕ)
      → less_than_or_equal dec.zero qty ≡ true
      → less_than_or_equal qty (dec.from_int max_int64) ≡ true
      → equal (total (slice_sizes qty threshold n)) qty ≡ true
  unfolding slice_sizes
  slice_sizes-total qty threshold n h m = ground (
    arith,
    ints.add_zero qty,
    λ (w : equal qty (dec.truncate qty (pos 0)) ≡ true).
        whole_slices-total qty n (dec.int_part qty) (ints.int_part_whole qty w h m),
  )

  abbrev pub IsPositive : D → Type 0
  IsPositive x = is_positive x ≡ true

  IsPositive-int : (n : ℕ) → 0 < n → IsPositive (dec.from_int (pos n))
  IsPositive-int n h =
      let x = dec.from_int (pos n) in
      let none = dec.from_int (pos 0) in
      ground (
        arith,
        ints.from_int_cmp (pos n) (pos 0),
        ints.from_int_zero,
        laws.cmp_flip none dec.zero,
        laws.le_trans x dec.zero none,
      )

  All-replicate :
      (m : ℕ) (x y : D) → IsPositive x → IsPositive y → All IsPositive (replicate m x ++ y ∷ [])
  All-replicate zero x y p q = (q, tt)
  All-replicate (suc m) x y p q = (p, All-replicate m x y p q)

  length-replicate-append : (m : ℕ) (x y : D) → length (replicate m x ++ y ∷ []) ≡ suc m
  length-replicate-append zero x y = refl
  length-replicate-append (suc m) x y = ap suc (length-replicate-append m x y)

  cut-IsPositive : (q k : ℕ) → 0 < k → k ≤ q → All IsPositive (cut q k)
  unfolding cut
  cut-IsPositive q k h p =
      All-replicate (k - 1) _ _ (IsPositive-int (q / k) (base_pos q k h p))
        (IsPositive-int (q - q / k * (k - 1)) (omega (arith, base_le q k h, base_pos q k h p)))

  length-cut : (q k : ℕ) → 0 < k → length {A = D} (cut q k) ≡ k
  unfolding cut
  length-cut q k h = length-replicate-append (k - 1) _ _ ∙ omega arith

  abbrev IsPlan : ℕ → List D → Type 0
  IsPlan n xs = All IsPositive xs × (0 < length xs) × (length xs ≤ max 1 n)

  whole_slices-IsPlan : (qty : D) (n : ℕ) (q : ℤ) → IsPositive qty → IsPlan n (whole_slices qty n q)
  unfolding whole_slices
  whole_slices-IsPlan qty n (negsuc q) p = ((p, tt), omega arith, omega arith)
  whole_slices-IsPlan qty n (pos q) p =
      let k = if ltb q n then q else n in
      elim (Bool-cases (leb k 1)) [
        | inl one ↦ rw one ((p, tt), omega arith, omega arith)
        | inr many ↦
            let above : 1 < k = ground arith in
            let within : k ≤ q = ground arith in
            let few : k ≤ n = ground arith in
            rw many (
              cut-IsPositive q k (omega arith) within,
              omega (arith, length-cut q k (omega arith)),
              omega (arith, length-cut q k (omega arith)),
            )
      ]

  -- An order for a positive quantity is cut into at least one fill and at most the configured number
  -- (one, where that is zero), each of a positive quantity.
  pub slice_sizes_plan :
      (qty threshold : D) (n : ℕ)
      → IsPositive qty
      → All IsPositive (slice_sizes qty threshold n)
        × (0 < length (slice_sizes qty threshold n))
        × (length (slice_sizes qty threshold n) ≤ max 1 n)
  unfolding slice_sizes
  slice_sizes_plan qty threshold n p =
      elim (Bool-cases (
        leb n 1
        || less_than_or_equal qty threshold
        || not (equal qty (dec.truncate qty (pos 0))))) [
          | inl one ↦ rw one ((p, tt), omega arith, omega arith)
          | inr many ↦ rw many (whole_slices-IsPlan qty n (dec.int_part qty) p)
        ]
