-- ===== src/Config/Window/Printing.antt =====
-- internal/config/maintenance.go: a window that is printed is read back.
use funding_carry.Prelude.{
  ℕ, ◌+◌, ◌*◌, ◌/◌, ◌%◌, ◌<◌, ◌≡◌, ◌≢◌, refl, sym, ap, ◌∙◌, [], ◌∷◌, ◌++◌, Option, some, false, All,
  arith, ◌==◌, lt→ltb,
}
use mathlib.Core.List.{append_assoc, append-nil, cons-ne-nil}
use funding_carry.Config.Bytes.{Bytes, is_space, to_lower, fields_from, fields, cut}
use funding_carry.Config.Window.{
  Weekday, sunday, monday, tuesday, wednesday, thursday, friday, saturday, MaintenanceWindow, ok,
  find_weekday, weekdays, parse_minutes, parse_time_of_day, digit_pair, format_time_of_day,
  short_name, hour_ns, minute_ns, parse_maintenance_window, print_window, parse_parts, three_fields,
}

-- No byte is white space.
abbrev pub IsWord : Bytes → Type 0
IsWord s = All (λ c. is_space c ≡ false) s

fields_from-word :
    (current s rest : Bytes)
    → IsWord s
    → fields_from current (s ++ rest) ≡ fields_from (current ++ s) rest
unfolding fields_from
fields_from-word current [] rest h = ap (λ c. fields_from c rest) (sym (append-nil current))
fields_from-word current (c ∷ s) rest h = rw h.0 (
    fields_from-word (current ++ c ∷ []) s rest h.1
    ∙ ap (λ d. fields_from d rest) (append_assoc current (c ∷ []) s))

-- A word, a space, and the rest.
fields-word : (s rest : Bytes) → s ≢ [] → IsWord s → fields (s ++ b' ' ∷ rest) ≡ s ∷ fields rest
unfolding fields fields_from
fields-word [] rest n h = absurd (n refl)
fields-word (c ∷ s) rest n h = fields_from-word [] (c ∷ s) (b' ' ∷ rest) h

fields-last : (s : Bytes) → s ≢ [] → IsWord s → fields s ≡ s ∷ []
unfolding fields fields_from
fields-last [] n h = absurd (n refl)
fields-last (c ∷ s) n h = ap fields (sym (append-nil (c ∷ s))) ∙ fields_from-word [] (c ∷ s) [] h

parse-digit_pairs :
    (h m : ℕ)
    → h < 24
    → m < 60
    → parse_time_of_day (digit_pair h ++ b':' ∷ digit_pair m) ≡ some (h * hour_ns + m * minute_ns)
unfolding parse_time_of_day parse_minutes
parse-digit_pairs h m lh lm = ground arith

-- A time of day in whole minutes is read back from its print.
parse-format :
    (d : ℕ)
    → d < 24 * hour_ns
    → d % minute_ns ≡ 0
    → parse_time_of_day (format_time_of_day d) ≡ some d
unfolding format_time_of_day
parse-format d l e =
    parse-digit_pairs (d / hour_ns) (d / minute_ns % 60) (omega arith) (omega arith)
    ∙ ap some (omega arith)

cut-append :
    (sep : ℕ) (s rest : Bytes)
    → All (λ c. (c == sep) ≡ false) s
    → cut sep (s ++ sep ∷ rest) ≡ some (s, rest)
unfolding cut
cut-append sep [] rest h = ground arith
cut-append sep (c ∷ s) rest h = rw (h.0, cut-append sep s rest h.1) refl

weekday-short_name : (day : Weekday) → find_weekday (to_lower (short_name day)) weekdays ≡ some day
unfolding find_weekday to_lower
weekday-short_name sunday = refl
weekday-short_name monday = refl
weekday-short_name tuesday = refl
weekday-short_name wednesday = refl
weekday-short_name thursday = refl
weekday-short_name friday = refl
weekday-short_name saturday = refl

format-IsWord : (d : ℕ) → d < 24 * hour_ns → IsWord (format_time_of_day d)
unfolding format_time_of_day
format-IsWord d l = ground arith

format-Lacks : (d : ℕ) → d < 24 * hour_ns → All (λ c. (c == b'-') ≡ false) (format_time_of_day d)
unfolding format_time_of_day
format-Lacks d l = ground arith

IsWord-append : (s t : Bytes) → IsWord s → IsWord t → IsWord (s ++ t)
IsWord-append [] t front back = back
IsWord-append (c ∷ s) t (printed, front) back = (printed, IsWord-append s t front back)

-- The range of a print is one word.
range-IsWord :
    (from to : ℕ)
    → from < 24 * hour_ns
    → to < 24 * hour_ns
    → IsWord (format_time_of_day from ++ b'-' ∷ format_time_of_day to)
range-IsWord from to p q =
    IsWord-append (format_time_of_day from) (b'-' ∷ format_time_of_day to) (format-IsWord from p)
      (refl, format-IsWord to q)

short_name-IsWord : (day : Weekday) → (short_name day ≢ []) × IsWord (short_name day)
short_name-IsWord sunday = (cons-ne-nil _ _, ground arith)
short_name-IsWord monday = (cons-ne-nil _ _, ground arith)
short_name-IsWord tuesday = (cons-ne-nil _ _, ground arith)
short_name-IsWord wednesday = (cons-ne-nil _ _, ground arith)
short_name-IsWord thursday = (cons-ne-nil _ _, ground arith)
short_name-IsWord friday = (cons-ne-nil _ _, ground arith)
short_name-IsWord saturday = (cons-ne-nil _ _, ground arith)

abbrev range : ℕ → ℕ → Bytes
range from to = format_time_of_day from ++ b'-' ∷ format_time_of_day to

range-ne-nil : (from to : ℕ) → range from to ≢ []
unfolding format_time_of_day
range-ne-nil from to = cons-ne-nil _ _

-- The three words of a print.
fields-print :
    (day : Weekday) (from to : ℕ) (place : Bytes)
    → from < 24 * hour_ns
    → to < 24 * hour_ns
    → place ≢ []
    → IsWord place
    → fields (short_name day ++ b' ' ∷ (range from to ++ b' ' ∷ place))
      ≡ short_name day ∷ range from to ∷ place ∷ []
fields-print day from to place p q n h =
    fields-word (short_name day) (range from to ++ b' ' ∷ place) (short_name-IsWord day).0
      (short_name-IsWord day).1
    ∙ ap (λ t. short_name day ∷ t)
        (fields-word (range from to) place (range-ne-nil from to) (range-IsWord from to p q)
          ∙ ap (λ t. range from to ∷ t) (fields-last place n h))

module _ {L : Type 0} (name : L → Bytes) (load : Bytes → Option L) where
  parse_parts-print :
      (day : Weekday) (from to : ℕ) (l : L)
      → from < to
      → to < 24 * hour_ns
      → from % minute_ns ≡ 0
      → to % minute_ns ≡ 0
      → load (name l) ≡ some l
      → parse_parts name load (short_name day, range from to, name l)
        ≡ ok (record { weekday = day; start = from; end = to; location = some l })
  unfolding parse_parts
  parse_parts-print day from to l before within whole whole' known =
      rw
        (
          weekday-short_name day,
          cut-append b'-' (format_time_of_day from) (format_time_of_day to)
              (format-Lacks from (omega arith)),
          parse-format from (omega arith) whole,
          parse-format to within whole',
          lt→ltb from to before,
          known,
        )
        refl

  print_window-fields :
      (w : MaintenanceWindow L) (l : L)
      → w.location ≡ some l
      → print_window name load w
        ≡ short_name w.weekday ++ b' ' ∷ (range w.start w.end ++ b' ' ∷ name l)
  unfolding print_window
  print_window-fields w l place = rw (print_window, place) (simp append_assoc)

  -- A window of whole minutes within a day, its end after its start, in a location that is found by its
  -- name of one word: what is printed is parsed to the same window.
  pub parse-print_window :
      (w : MaintenanceWindow L) (l : L)
      → w.location ≡ some l
      → w.start < w.end
      → w.end < 24 * hour_ns
      → w.start % minute_ns ≡ 0
      → w.end % minute_ns ≡ 0
      → name l ≢ []
      → IsWord (name l)
      → load (name l) ≡ some l
      → parse_maintenance_window name load (print_window name load w) ≡ ok w
  unfolding parse_maintenance_window
  parse-print_window w l place before within whole whole' n h known =
      rw
        (
          print_window-fields w l place,
          parse_maintenance_window,
          fields-print w.weekday w.start w.end (name l) (omega arith) within n h,
          three_fields,
          parse_parts-print w.weekday w.start w.end l before within whole whole' known,
        )
        (ap (λ p. ok (record w { location = p })) (sym place))
