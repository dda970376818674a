-- ===== src/Clock.antt =====
-- Go's time.Time and time.Duration. An instant is its nanoseconds since the zero time (year 1),
-- so the zero value is 0; a duration is a signed count of nanoseconds.
use funding_carry.Prelude.{ℕ, ◌-◌, ◌%◌, Bool, ltb, ◌==◌, if◌then◌else◌}
use funding_carry.Prelude.Int.{ℤ, pos, negsuc, sub_ℕ, ltb_ℤ}

abbrev pub Time : Type 0
Time = ℕ

abbrev pub Duration : Type 0
Duration = ℤ

abbrev pub is_zero_time : Time → Bool
is_zero_time t = t == 0

abbrev pub after : Time → Time → Bool
after t u = ltb u t

abbrev pub before : Time → Time → Bool
before t u = ltb t u

abbrev pub max_duration : Duration
max_duration = pos 9223372036854775807

abbrev pub min_duration : Duration
min_duration = negsuc 9223372036854775807

-- time.Time.Sub: the difference, saturated to what an int64 holds.
abbrev pub saturate : ℤ → Duration
saturate d =
    if ltb_ℤ max_duration d then max_duration else if ltb_ℤ d min_duration then min_duration else d

abbrev pub time_sub : Time → Time → Duration
time_sub t u = saturate (sub_ℕ t u)

-- time.Time.Truncate: down to a multiple of `d`, and unchanged if `d` is not positive.
abbrev pub truncate : Time → ℕ → Time
truncate t d = if d == 0 then t else t - t % d
