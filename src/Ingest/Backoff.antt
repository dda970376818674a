-- ===== src/Ingest/Backoff.antt =====
-- internal/ingest/backoff.go: the reconnect schedule.
pub mod Schedule
use funding_carry.Prelude.{
  ℕ, zero, suc, ◌+◌, ◌-◌, ◌*◌, ◌/◌, ◌%◌, ◌^◌, Bool, ltb, leb, ◌==◌, if◌then◌else◌, not, ◌||◌,
}
use funding_carry.Prelude.Int.{ℤ, pos, negsuc, ltb_ℤ, wrap_int64}
use funding_carry.Clock.{Duration}

-- `Jitter` stays apart: it is given to `delay`.
pub record Backoff : Type 0 where
  pub base : Duration
  pub ceiling : Duration

abbrev pub default_base : Duration
default_base = pos 500000000

abbrev pub default_max : Duration
default_max = pos 30000000000

abbrev pub max_shift : ℕ
max_shift = 32

abbrev pub or_default : Duration → Duration → Duration
or_default d default = if ltb_ℤ (pos 0) d then d else default

unfoldable pub with_defaults : Backoff → Backoff
with_defaults b = record {
  base = or_default b.base default_base;
  ceiling = or_default b.ceiling default_max;
}

-- Go's `d << n` on an int64.
unfoldable pub shift_left : Duration → ℕ → Duration
shift_left (pos d) n = wrap_int64 (d * 2 ^ n)
shift_left (negsuc d) n = wrap_int64 ((2 ^ 64 - suc d) * 2 ^ n)

-- The exponent of attempt n.
abbrev pub exponent : ℤ → ℕ
exponent (negsuc n) = 0
exponent (pos n) = if ltb max_shift (n - 1) then max_shift else n - 1

-- `delay` before its jitter.
unfoldable pub window : Backoff → ℤ → Duration
window b attempt =
    let d = shift_left b.base (exponent attempt) in
    if not (ltb_ℤ (pos 0) d) || ltb_ℤ b.ceiling d then b.ceiling else d

unfoldable pub delay : (Duration → Duration) → Backoff → ℤ → Duration
delay jitter b attempt = jitter (window b attempt)

-- `half`, which Go's division of a duration rounds towards zero, is not positive for a duration
-- below 2; `draw` is what rand.Int64N(half) returns, below `half`.
unfoldable pub equal_jitter : (ℕ → ℕ) → Duration → Duration
equal_jitter draw (negsuc d) = negsuc d
equal_jitter draw (pos d) = if d / 2 == 0 then pos d else pos (d / 2 + draw (d / 2))
