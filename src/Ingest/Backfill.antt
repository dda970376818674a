-- ===== src/Ingest/Backfill.antt =====
-- internal/ingest/backfill.go: what is to be downloaded, the marks of stored candles and the hours to
-- compute; and the candles of rest.go.
pub mod Gaps
pub mod Fetch
mod Examples
use funding_carry.Prelude.{
  ℕ, zero, suc, ◌+◌, ◌-◌, ◌*◌, List, [], ◌∷◌, ◌++◌, Option, none, some, String, Bool, true, false,
  not, ◌||◌, if◌then◌else◌,
}
use funding_carry.Prelude.Sort.{sort}
use funding_carry.Clock.{Time, before, truncate}
use funding_carry.TimeMap
use funding_carry.Decimal.{Decimal, is_positive}
use funding_carry.Db.Rows.Market.{BarRow}
use funding_carry.Ingest.Funding.{MarkSample, hour_ns, sample_interval}

abbrev pub minute : ℕ
minute = 60000000000

-- The widths of a candle that are asked for, and any other text.
pub data Granularity : Type 0 where
  one_minute five_minute one_hour : Granularity
  other : String → Granularity

unfoldable pub interval : Granularity → ℕ
interval one_minute = minute
interval five_minute = 5 * minute
interval one_hour = hour_ns
interval (other s) = 0

unfoldable pub tf : Granularity → String
tf one_minute = "1m"
tf five_minute = "5m"
tf one_hour = "1h"
tf (other s) = ""

pub record RestCandle (D : Type 0) : Type 0 where
  pub start : Time
  pub opening : D
  pub high : D
  pub low : D
  pub closing : D
  pub volume : D

-- A half-open span.
pub record TimeRange : Type 0 where
  pub from : Time
  pub to : Time

-- The span that is open is listed when a minute that is there ends it.
abbrev pub close_open : List TimeRange → Option TimeRange → List TimeRange
close_open out none = out
close_open out (some r) = out ++ r ∷ []

abbrev pub extend : Time → Option TimeRange → TimeRange
extend at none = record { from = at; to = at + minute }
extend at (some r) = record r { to = at + minute }

module _ {D : Type 0} where
  -- Row.
  unfoldable pub candle_row : RestCandle D → String → Granularity → BarRow D
  unfolding interval tf
  candle_row c product g = record {
    ts = c.start + interval g;
    product_id = product;
    tf = tf g;
    opening = c.opening;
    high = c.high;
    low = c.low;
    closing = c.closing;
    volume = c.volume;
    trade_count = none;
  }

  -- The bars that are stored, by the start of their candle.
  unfoldable pub stored_from :
      List (Time × RestCandle D) → List (BarRow D) → List (Time × RestCandle D)
  stored_from out [] = out
  stored_from out (b ∷ bars) =
      stored_from
        (TimeMap.insert (b.ts - minute)
          (record {
            start = b.ts - minute;
            opening = b.opening;
            high = b.high;
            low = b.low;
            closing = b.closing;
            volume = b.volume;
          })
          out)
        bars

  -- The loop of missingRanges; nothing if the fuel runs out.
  unfoldable pub missing_from :
      ℕ
      → List (Time × RestCandle D)
      → Time
      → Time
      → List TimeRange
      → Option TimeRange
      → Option (List TimeRange)
  missing_from zero have at end out open_range = none
  missing_from (suc fuel) have at end out open_range = elim (before at end) [
    | true ↦ elim (TimeMap.lookup at have) [
      | some c ↦ missing_from fuel have (at + minute) end (close_open out open_range) none
      | none ↦ missing_from fuel have (at + minute) end out (some (extend at open_range))
    ]
    | false ↦ some (close_open out open_range)
  ]

  -- A round goes on by a minute, so the fuel is enough.
  unfoldable pub missing_ranges : List (Time × RestCandle D) → Time → Time → Option (List TimeRange)
  missing_ranges have start end = missing_from (suc (end - start)) have start end [] none

  abbrev pub keys : List (Time × RestCandle D) → List Time
  keys [] = []
  keys ((start, c) ∷ candles) = start ∷ keys candles

  -- The windows that the candles start in, each once.
  unfoldable pub windows : List (Time × RestCandle D) → List (Time × Unit {0})
  windows [] = []
  windows ((start, c) ∷ candles) =
      TimeMap.insert (truncate start sample_interval) tt (windows candles)

abbrev pub set_keys : List (Time × Unit {0}) → List Time
set_keys [] = []
set_keys ((t, u) ∷ others) = t ∷ set_keys others

-- sortedSet.
unfoldable pub sorted_set : List (Time × Unit {0}) → List Time
sorted_set m = sort before (set_keys m)

module _ {D : Type 0} ⦃dec : Decimal D⦄ where
  abbrev pub add_candle : Option (RestCandle D) → D × D → D × D
  add_candle none sums = sums
  add_candle (some c) (notional, volume) =
      if not (is_positive c.volume)
      then (notional, volume)
      else (dec.add notional (dec.mul c.closing c.volume), dec.add volume c.volume)

  -- The candles of a window from the i-th minute on.
  abbrev pub sum_window : ℕ → List (Time × RestCandle D) → Time → D × D → D × D
  sum_window zero bars at sums = sums
  sum_window (suc n) bars at sums =
      sum_window n bars (at + minute) (add_candle (TimeMap.lookup at bars) sums)

  unfoldable pub candle_mark : List (Time × RestCandle D) → Time → Option D
  candle_mark bars start =
      let sums = sum_window 3 bars start (dec.zero, dec.zero) in
      if not (is_positive sums.1) then none else some (dec.div sums.0 sums.1)

  abbrev pub sample_of : Time → Option D → Option D → List (MarkSample D)
  sample_of window (some f) (some s) =
      record { at = window + sample_interval; futures_mark = f; spot_mark = s } ∷ []
  sample_of window (some f) none = []
  sample_of window none s = []

  unfoldable pub samples_of :
      List (Time × RestCandle D) → List (Time × RestCandle D) → List Time → List (MarkSample D)
  samples_of perp spot [] = []
  samples_of perp spot (w ∷ ws) =
      sample_of w (candle_mark perp w) (candle_mark spot w) ++ samples_of perp spot ws

  -- MarkSamplesFromCandles.
  unfoldable pub mark_samples_from_candles :
      List (Time × RestCandle D) → List (Time × RestCandle D) → List (MarkSample D)
  mark_samples_from_candles perp spot =
      sort (λ a b. before a.at b.at) (samples_of perp spot (sorted_set (windows perp)))

-- The loop of hoursToCompute, over a number of hours; `shut` is Contains of the maintenance window.
unfoldable pub hours_to_compute : ℕ → (Time → Bool) → List (Time × Unit {0}) → Time → List Time
hours_to_compute zero shut done h = []
hours_to_compute (suc n) shut done h =
    let rest = hours_to_compute n shut done (h + hour_ns) in
    if shut h then rest else elim (TimeMap.lookup h done) [ some u ↦ rest | none ↦ h ∷ rest ]
