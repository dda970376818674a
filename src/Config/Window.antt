-- ===== src/Config/Window.antt =====
-- internal/config/maintenance.go: the weekly trading break. Parameters: `L` is the type of locations,
-- `name` and `load` are Location.String and LoadLocation, and `local` reads the clock of a location
-- (Time.In); the time-zone database is not part of the repository.
pub mod Printing
use funding_carry.Prelude.{
  ℕ, zero, suc, ◌+◌, ◌-◌, ◌*◌, ◌/◌, ◌%◌, List, [], ◌∷◌, ◌++◌, Option, none, some, Bool, true, false,
  not, ◌&&◌, ltb, leb, ◌==◌, if◌then◌else◌,
}
use funding_carry.Clock.{Time}
use funding_carry.Config.Bytes.{Bytes, codes, is_digit, to_lower, fields, cut}

-- time.Weekday.
pub data Weekday : Type 0 where
  sunday monday tuesday wednesday thursday friday saturday : Weekday

-- Durations since local midnight, in nanoseconds.
pub record MaintenanceWindow (L : Type 0) : Type 0 where
  pub weekday : Weekday
  pub start : ℕ
  pub end : ℕ
  pub location : Option L

-- What a location's clock shows at an instant.
pub record LocalTime : Type 0 where
  pub weekday : Weekday
  pub hour : ℕ
  pub minute : ℕ
  pub second : ℕ

pub data WindowError : Type 0 where
  not_three_fields bad_range end_not_after_start : WindowError
  unknown_weekday : Bytes → WindowError
  bad_time : Bytes → WindowError
  unknown_location : Bytes → WindowError

pub data Result (A : Type 0) : Type 0 where
  ok : A → Result A
  err : WindowError → Result A

infixl 5 ◌>>=◌ ◌>>◌
abbrev pub ◌>>=◌ : {A B : Type 0} → Result A → (A → Result B) → Result B
ok a >>= f = f a
err e >>= f = err e

abbrev pub ◌>>◌ : {B : Type 0} → Result (Unit {0}) → Result B → Result B
m >> k = m >>= λ _. k

abbrev pub or_error : {A : Type 0} → Option A → WindowError → Result A
or_error none e = err e
or_error (some a) e = ok a

abbrev pub guard : Bool → WindowError → Result (Unit {0})
guard true e = ok tt
guard false e = err e

abbrev pub hour_ns : ℕ
hour_ns = 3600000000000

abbrev pub minute_ns : ℕ
minute_ns = 60000000000

abbrev pub bytes_eq : Bytes → Bytes → Bool
bytes_eq [] [] = true
bytes_eq [] (d ∷ t) = false
bytes_eq (c ∷ s) [] = false
bytes_eq (c ∷ s) (d ∷ t) = (c == d) && bytes_eq s t

-- The map `weekdays`.
unfoldable pub find_weekday : Bytes → List (Bytes × Weekday) → Option Weekday
find_weekday s [] = none
find_weekday s ((known, day) ∷ others) =
    if bytes_eq known s then some day else find_weekday s others

abbrev pub weekdays : List (Bytes × Weekday)
weekdays =
    (codes "sun", sunday)
    ∷ (codes "sunday", sunday)
    ∷ (codes "mon", monday)
    ∷ (codes "monday", monday)
    ∷ (codes "tue", tuesday)
    ∷ (codes "tuesday", tuesday)
    ∷ (codes "wed", wednesday)
    ∷ (codes "wednesday", wednesday)
    ∷ (codes "thu", thursday)
    ∷ (codes "thursday", thursday)
    ∷ (codes "fri", friday)
    ∷ (codes "friday", friday)
    ∷ (codes "sat", saturday)
    ∷ (codes "saturday", saturday)
    ∷ []

-- The number of two digits, which `time.Parse` reads of "04" and, unless there is one digit only, of "15".
abbrev pub two_digits : ℕ → ℕ → ℕ
two_digits c d = 10 * (c - b'0') + (d - b'0')

-- The minutes, at the end of the text.
unfoldable pub parse_minutes : ℕ → Bytes → Option ℕ
parse_minutes hour (colon ∷ c ∷ d ∷ []) =
    if (colon == b':') && is_digit c && is_digit d && ltb (two_digits c d) 60
    then some (hour * hour_ns + two_digits c d * minute_ns)
    else none
parse_minutes hour s = none

-- time.Parse with the layout "15:04", as the duration since midnight.
unfoldable pub parse_time_of_day : Bytes → Option ℕ
unfolding parse_minutes
parse_time_of_day (c ∷ d ∷ s) =
    if not (is_digit c)
    then none
    else if not (is_digit d)
    then parse_minutes (c - b'0') (d ∷ s)
    else if ltb (two_digits c d) 24
    then parse_minutes (two_digits c d) s
    else none
parse_time_of_day s = none

abbrev pub digit_pair : ℕ → Bytes
digit_pair n = (b'0' + n / 10) ∷ (b'0' + n % 10) ∷ []

-- `%02d:%02d` of a duration below 100 hours.
unfoldable pub format_time_of_day : ℕ → Bytes
format_time_of_day d = digit_pair (d / hour_ns) ++ b':' ∷ digit_pair (d / minute_ns % 60)

abbrev pub short_name : Weekday → Bytes
short_name sunday = codes "Sun"
short_name monday = codes "Mon"
short_name tuesday = codes "Tue"
short_name wednesday = codes "Wed"
short_name thursday = codes "Thu"
short_name friday = codes "Fri"
short_name saturday = codes "Sat"

abbrev pub three_fields : List Bytes → Result (Bytes × Bytes × Bytes)
three_fields (a ∷ b ∷ c ∷ []) = ok (a, b, c)
three_fields _ = err not_three_fields

abbrev pub same_day : Weekday → Weekday → Bool
same_day sunday sunday = true
same_day monday monday = true
same_day tuesday tuesday = true
same_day wednesday wednesday = true
same_day thursday thursday = true
same_day friday friday = true
same_day saturday saturday = true
same_day _ _ = false

module _ {L : Type 0} (name : L → Bytes) (load : Bytes → Option L) where
  unfoldable pub parse_parts : Bytes × Bytes × Bytes → Result (MaintenanceWindow L)
  parse_parts (weekday, range, place) = do
    day ← or_error (find_weekday (to_lower weekday) weekdays) (unknown_weekday weekday)
    ends ← or_error (cut b'-' range) bad_range
    from ← or_error (parse_time_of_day ends.0) (bad_time ends.0)
    to ← or_error (parse_time_of_day ends.1) (bad_time ends.1)
    guard (ltb from to) end_not_after_start
    location ← or_error (load place) (unknown_location place)
    ok (record { weekday = day; start = from; end = to; location = some location })

  unfoldable pub parse_maintenance_window : Bytes → Result (MaintenanceWindow L)
  unfolding parse_parts
  parse_maintenance_window s = do parts ← three_fields (fields s); parse_parts parts

  -- String.
  unfoldable pub print_window : MaintenanceWindow L → Bytes
  print_window w = elim w.location [
    | none ↦ codes "unset"
    | some l ↦
        short_name w.weekday
        ++ (b' ' ∷ format_time_of_day w.start
            ++ (b'-' ∷ format_time_of_day w.end ++ (b' ' ∷ name l)))
  ]

module _ {L : Type 0} (local : L → Time → LocalTime) where
  abbrev pub since_midnight : LocalTime → ℕ
  since_midnight t = t.hour * hour_ns + t.minute * minute_ns + t.second * 1000000000

  unfoldable pub contains : MaintenanceWindow L → Time → Bool
  contains w t = elim w.location [
    | none ↦ false
    | some l ↦
        let now = local l t in
        if not (same_day now.weekday w.weekday)
        then false
        else leb w.start (since_midnight now) && ltb (since_midnight now) w.end
  ]
