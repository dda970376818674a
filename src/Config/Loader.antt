-- ===== src/Config/Loader.antt =====
-- internal/config/env.go: typed readings of the environment, each with the errors that it adds to the
-- loader's. The environment has the variables, and what parses them outside the repository: durations
-- (time.ParseDuration), instants (time.Parse with RFC3339), log levels (slog), decimals and time zones.
use funding_carry.Prelude.{
  ℕ, ◌*◌, ◌+◌, ◌-◌, List, [], ◌∷◌, ◌++◌, Option, none, some, String, Bool, true, false, ◌||◌,
  length, ◌==◌, if◌then◌else◌,
}
use funding_carry.Prelude.Int.{ℤ, pos, negsuc, ltb_ℤ, wrap_int64}
use funding_carry.Prelude.Text.{str_eq}
use funding_carry.Clock.{Time, Duration}
use funding_carry.Decimal.{Decimal}
use funding_carry.Config.Bytes.{Bytes, codes, is_space, atoi}
use funding_carry.Config.Window.{
  MaintenanceWindow, WindowError, Result, ok, err, sunday, parse_maintenance_window,
}

pub record Environment (D L : Type 0) : Type 0 where
  pub lookup : String → Option String
  pub parse_duration : Bytes → Option Duration
  pub parse_instant : Bytes → Option Time
  pub parse_level : Bytes → Option ℤ
  pub parse_decimal : Bytes → Option D
  pub name : L → Bytes
  pub load : Bytes → Option L

pub data Reason : Type 0 where
  not_integer not_positive not_bool not_duration not_decimal not_time : Reason
  unknown_log_format unknown_log_level : Reason
  wrong_count : ℕ → ℕ → Reason
  bad_window : WindowError → Reason

pub data ConfigError : Type 0 where
  required : String → ConfigError
  rejected : String → Bytes → Reason → ConfigError

-- A value and the errors of reading it.
abbrev pub Reading : Type 0 → Type 0
Reading A = A × List ConfigError

abbrev pub second_ns : ℕ
second_ns = 1000000000

-- time.Duration(v) * unit, an int64 product, for a v that is not negative.
abbrev pub times : ℤ → ℕ → Duration
times (pos v) unit = wrap_int64 (v * unit)
times (negsuc v) unit = negsuc (v * unit + (unit - 1))

abbrev pub is_positive_int : ℤ → Bool
is_positive_int n = ltb_ℤ (pos 0) n

unfoldable pub parse_bool : String → Option Bool
parse_bool s =
    if str_eq s "1"
      || str_eq s "t"
      || str_eq s "T"
      || str_eq s "TRUE"
      || str_eq s "true"
      || str_eq s "True"
    then some true
    else if str_eq s "0"
        || str_eq s "f"
        || str_eq s "F"
        || str_eq s "FALSE"
        || str_eq s "false"
        || str_eq s "False"
    then some false
    else none

-- strings.Split at a byte, after the part `current` of an item.
unfoldable pub split_from : ℕ → Bytes → Bytes → List Bytes
split_from sep current [] = current ∷ []
split_from sep current (c ∷ s) =
    let next = split_from sep [] s in
    let more = split_from sep (current ++ c ∷ []) s in if c == sep then current ∷ next else more

abbrev pub trim_left : Bytes → Bytes
trim_left [] = []
trim_left (c ∷ s) = let rest = trim_left s in if is_space c then rest else c ∷ s

-- The text but for white space at its end; strings.TrimSpace takes off both.
abbrev pub trim_right : Bytes → Bytes
trim_right [] = []
trim_right (c ∷ s) = elim (trim_right s) [
  | [] ↦ if is_space c then [] else c ∷ []
  | d ∷ t ↦ c ∷ d ∷ t
]

-- A reading that a failure rejects, with a value to go on with.
abbrev pub or_reject : {A : Type 0} → String → String → Reason → A → Option A → Reading A
or_reject key raw reason fallback none = (fallback, rejected key (codes raw) reason ∷ [])
or_reject key raw reason fallback (some a) = (a, [])

-- The integer, if it is positive.
abbrev pub only_positive : Option ℤ → Option ℤ
only_positive none = none
only_positive (some n) = if is_positive_int n then some n else none

module _ {D L : Type 0} (env : Environment D L) where
  abbrev pub set_or : String → Option String → String
  set_or def none = def
  set_or def (some raw) = if str_eq raw "" then def else raw

  -- `value`, and String and Secret.
  unfoldable pub value : String → String → String
  value key def = set_or def (env.lookup key)

  unfoldable pub required_value : String → Reading String
  unfolding value
  required_value key = (value key "", if str_eq (value key "") "" then required key ∷ [] else [])

  -- A variable that is not set takes the default without being parsed.
  abbrev pub unless_unset : {A : Type 0} → String → A → Reading A → Reading A
  unless_unset raw def reading = if str_eq raw "" then (def, []) else reading

  unfoldable pub bool_value : String → Bool → Reading Bool
  unfolding value
  bool_value key def =
      unless_unset (value key "") def
        (or_reject key (value key "") not_bool def (parse_bool (value key "")))

  unfoldable pub positive_int : String → ℤ → Reading ℤ
  unfolding value
  positive_int key def =
      unless_unset (value key "") def (
        or_reject key (value key "") not_positive def (only_positive (atoi (codes (value key "")))))

  abbrev pub in_seconds : Option ℤ → Option Duration
  in_seconds none = none
  in_seconds (some v) = some (times v second_ns)

  unfoldable pub seconds : String → Duration → Reading Duration
  unfolding value
  seconds key def = unless_unset (value key "") def (
      or_reject key (value key "") not_positive def
        (in_seconds (only_positive (atoi (codes (value key ""))))))

  unfoldable pub duration : String → Duration → Reading Duration
  unfolding value
  duration key def = unless_unset (value key "") def (
      or_reject key (value key "") not_duration def
        (only_positive (env.parse_duration (codes (value key "")))))

  unfoldable pub instant : String → Reading Time
  unfolding value
  instant key =
      unless_unset (value key "") 0
        (or_reject key (value key "") not_time 0 (env.parse_instant (codes (value key ""))))

  abbrev pub window_or_reject :
      String → String → Result (MaintenanceWindow L) → Reading (MaintenanceWindow L)
  window_or_reject key raw (ok w) = (w, [])
  window_or_reject key raw (err e) = (
    record { weekday = sunday; start = 0; end = 0; location = none },
    rejected key (codes raw) (bad_window e) ∷ [],
  )

  unfoldable pub window : String → String → Reading (MaintenanceWindow L)
  unfolding value
  window key def =
      window_or_reject key (value key def)
        (parse_maintenance_window env.name env.load (codes (value key def)))

  module _ ⦃dec : Decimal D⦄ where
    unfoldable pub decimal : String → String → Reading D
    unfolding value
    decimal key def =
        or_reject key (value key def) not_decimal dec.zero
          (env.parse_decimal (codes (value key def)))

    unfoldable pub parse_all : List Bytes → Option (List D)
    parse_all [] = some []
    parse_all (p ∷ ps) = elim (env.parse_decimal (trim_right (trim_left p))) [
      | none ↦ none
      | some d ↦ elim (parse_all ps) [ none ↦ none | some ds ↦ some (d ∷ ds) ]
    ]

    -- A list of the wrong length and one with a part that is no decimal leave nothing.
    unfoldable pub decimal_list : String → String → ℕ → Reading (List D)
    unfolding value split_from
    decimal_list key def want =
        let parts = split_from b',' [] (codes (value key def)) in
        if length parts == want
        then or_reject key (value key def) not_decimal [] (parse_all parts)
        else ([], rejected key (codes (value key def)) (wrong_count want (length parts)) ∷ [])
