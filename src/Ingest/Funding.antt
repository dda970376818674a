-- ===== src/Ingest/Funding.antt =====
-- internal/ingest/funding.go: the hourly funding rate from three-minute marks, and a series of hours.
pub mod Runner
pub mod Series
mod Examples
use funding_carry.Prelude.{
  ℕ, ◌+◌, ◌*◌, ◌/◌, ◌-◌, ltb, List, [], ◌∷◌, Option, none, some, not, ◌&&◌, if◌then◌else◌, ◌⊎◌, inl,
  inr, length,
}
use funding_carry.Prelude.Int.{ℤ, pos, negsuc}
use funding_carry.Prelude.Sort.{sort}
use funding_carry.Clock.{Time, after, before, truncate}
use funding_carry.Decimal.{Decimal, is_zero}

abbrev pub hour_ns : ℕ
hour_ns = 3600000000000

-- SampleInterval, 3 minutes.
abbrev pub sample_interval : ℕ
sample_interval = 180000000000

abbrev pub samples_per_hour : ℕ
samples_per_hour = hour_ns / sample_interval

abbrev pub min_samples_per_hour : ℕ
min_samples_per_hour = samples_per_hour * 2 / 3

abbrev pub funding_scale : ℤ
funding_scale = pos 16

-- `at` is the end of the window.
pub record MarkSample (D : Type 0) : Type 0 where
  pub at : Time
  pub futures_mark : D
  pub spot_mark : D

pub record Funding (D : Type 0) : Type 0 where
  pub hour_start : Time
  pub premium : D
  pub rate : D
  pub annualized : D
  pub samples : ℕ

pub data FundingError : Type 0 where
  spot_mark_zero : Time → FundingError
  too_few_samples : Time → ℕ → ℕ → FundingError

unfoldable pub hour_of : Time → Time
hour_of t = truncate t hour_ns

unfoldable pub sample_boundary : Time → Time
sample_boundary t = truncate t sample_interval

module _ {D : Type 0} where
  -- The windows that lie inside the hour.
  unfoldable pub in_hour : Time → List (MarkSample D) → List (MarkSample D)
  in_hour start [] = []
  in_hour start (s ∷ samples) =
      let others = in_hour start samples in
      if after s.at start && not (after s.at (start + hour_ns)) then s ∷ others else others

module _ {D : Type 0} ⦃dec : Decimal D⦄ where
  -- 0.75, exactly.
  abbrev pub alpha : D
  alpha = dec.shift (dec.from_int (pos 75)) (negsuc 1)

  abbrev pub one_minus_alpha : D
  one_minus_alpha = dec.shift (dec.from_int (pos 25)) (negsuc 1)

  abbrev pub hours_per_year : D
  hours_per_year = dec.from_int (pos (24 * 365))

  unfoldable pub sample_premium : MarkSample D → FundingError ⊎ D
  sample_premium s =
      if is_zero s.spot_mark
      then inl (spot_mark_zero s.at)
      else inr (
          dec.div (dec.div (dec.sub s.futures_mark s.spot_mark) s.spot_mark)
            (dec.from_int (pos 24)))

  -- The sum of the premiums, on the sum so far.
  unfoldable pub sum_premiums : D → List (MarkSample D) → FundingError ⊎ D
  unfolding sample_premium
  sum_premiums sum [] = inr sum
  sum_premiums sum (s ∷ samples) = elim (sample_premium s) [
    | inl e ↦ inl e
    | inr p ↦ sum_premiums (dec.add sum p) samples
  ]

  -- The recursion's step from the previous rate, if there is one.
  unfoldable pub smooth : D → Option D → D
  smooth premium none = dec.round premium funding_scale
  smooth premium (some previous) =
      dec.round (dec.add (dec.mul alpha premium) (dec.mul one_minus_alpha previous)) funding_scale

  abbrev pub funding_of : Time → ℕ → Option D → FundingError ⊎ D → FundingError ⊎ Funding D
  funding_of hour count previous (inl e) = inl e
  funding_of hour count previous (inr sum) =
      let premium = dec.div sum (dec.from_int (pos count)) in
      let rate = smooth premium previous in
      inr (record {
        hour_start = hour;
        premium = premium;
        rate = rate;
        annualized = dec.mul rate hours_per_year;
        samples = count;
      })

  unfoldable pub rate_for_hour : Time → List (MarkSample D) → Option D → FundingError ⊎ Funding D
  unfolding in_hour sum_premiums smooth
  rate_for_hour hour samples previous =
      let inside = in_hour hour samples in
      if ltb (length inside) min_samples_per_hour
      then inl (too_few_samples hour (length inside) min_samples_per_hour)
      else funding_of hour (length inside) previous (sum_premiums dec.zero inside)

  -- Series, over hours in order: what is computed, and the hours that cannot be marked, which do not take
  -- the recursion on.
  unfoldable pub series_from :
      List Time → List (MarkSample D) → Option D → List (Funding D) × List FundingError
  series_from [] samples previous = ([], [])
  series_from (h ∷ hours) samples previous = elim (rate_for_hour h samples previous) [
    | inl e ↦ let rest = series_from hours samples previous in (rest.0, e ∷ rest.1)
    | inr f ↦ let rest = series_from hours samples (some f.rate) in (f ∷ rest.0, rest.1)
  ]

  unfoldable pub series :
      List Time → List (MarkSample D) → Option D → List (Funding D) × List FundingError
  unfolding series_from
  series hours samples seed = series_from (sort before hours) samples seed
