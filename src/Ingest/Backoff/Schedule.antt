-- ===== src/Ingest/Backoff/Schedule.antt =====
-- internal/ingest/backoff.go: the schedule grows to its ceiling and stays within it.
use funding_carry.Prelude.{ℕ, suc, ◌*◌, ◌/◌, ◌%◌, ◌^◌, ◌≤◌, ◌<◌, min, ◌≡◌, arith, ap, ◌∙◌, refl}
use native.Mathlib.Nat.{pow-le-pow_right, one-le-pow}
use funding_carry.Prelude.Int.{ℤ, pos, negsuc, ◌≤ℤ◌}
use funding_carry.Ingest.Backoff.{
  Backoff, with_defaults, shift_left, exponent, window, delay, equal_jitter,
}

window_within :
    (b : Backoff) (attempt : ℤ)
    → pos 1 ≤ℤ b.ceiling
    → (pos 1 ≤ℤ window b attempt) × (window b attempt ≤ℤ b.ceiling)
unfolding window
window_within b attempt h = ground arith

equal_jitter_within :
    (draw : ℕ → ℕ) (d c : ℤ)
    → ((h : ℕ) → 0 < h → draw h < h)
    → pos 1 ≤ℤ d
    → d ≤ℤ c
    → (pos 1 ≤ℤ equal_jitter draw d) × (equal_jitter draw d ≤ℤ c)
unfolding equal_jitter
equal_jitter_within draw (negsuc d) c h l u = ground arith
equal_jitter_within draw (pos d) c h l u = ground (arith, h (d / 2))

-- Whatever the schedule is set to, and whatever overflows: with the production jitter, whose draw
-- below a positive bound is below it, the delay of every attempt is positive and at most the ceiling.
pub delay_within :
    (b : Backoff) (draw : ℕ → ℕ) (attempt : ℤ)
    → ((h : ℕ) → 0 < h → draw h < h)
    → (pos 1 ≤ℤ delay (equal_jitter draw) (with_defaults b) attempt)
      × (delay (equal_jitter draw) (with_defaults b) attempt ≤ℤ (with_defaults b).ceiling)
unfolding delay with_defaults
delay_within b draw attempt h =
    let c = with_defaults b in
    let w = window_within c attempt (ground arith) in
    equal_jitter_within draw (window c attempt) c.ceiling h w.0 w.1

small_mod : (m n : ℕ) → m < n → m % n ≡ m
small_mod m n h = grind arith

fits : (d p : ℕ) → d < 2 ^ 31 → p ≤ 2 ^ 32 → d * p < 2 ^ 63
fits d p h m = grind arith

pow_mono : (k n : ℕ) → k ≤ n → 2 ^ k ≤ 2 ^ n
pow_mono k n h = pow-le-pow_right (omega arith) h

shift_left_exact : (d k : ℕ) → d < 2 ^ 31 → k ≤ 32 → shift_left (pos d) k ≡ pos (d * 2 ^ k)
unfolding shift_left
shift_left_exact d k h m =
    ground (arith, fits d (2 ^ k), pow_mono k 32 m, small_mod (d * 2 ^ k) (2 ^ 64))

exponent-min : (n : ℕ) → exponent (pos (suc n)) ≡ min n 32
exponent-min n = ground arith

product_pos : (d p : ℕ) → 0 < d → 1 ≤ p → 0 < d * p
product_pos d p h m = grind arith

window_cut :
    (b : Backoff) (attempt : ℤ) (x c : ℕ)
    → shift_left b.base (exponent attempt) ≡ pos x
    → 0 < x
    → b.ceiling ≡ pos c
    → window b attempt ≡ pos (min x c)
unfolding window
window_cut b attempt x c e p q = ground arith

-- The reference schedule: a base below 2 ^ 31 nanoseconds doubles with each attempt after the first, 32
-- times at most, and is cut at the ceiling.
pub window_doubles :
    (d n c : ℕ)
    → 0 < d
    → d < 2 ^ 31
    → window (record { base = pos d; ceiling = pos c }) (pos (suc n))
      ≡ pos (min (d * 2 ^ min n 32) c)
window_doubles d n c p h =
    let k = min n 32 in
    window_cut (record { base = pos d; ceiling = pos c }) (pos (suc n)) (d * 2 ^ k) c
      (ap (shift_left (pos d)) (exponent-min n) ∙ shift_left_exact d k h (omega arith))
      (product_pos d (2 ^ k) p (one-le-pow k 2 (omega arith))) refl
