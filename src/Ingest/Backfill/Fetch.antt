-- ===== src/Ingest/Backfill/Fetch.antt =====
-- internal/ingest/backfill.go: what is downloaded, and what is submitted of it. `fetch` is the REST client,
-- with nothing for a page that will not load; the context is not cancelled. `sink` is what Submit answers.
use funding_carry.Prelude.{
  ℕ, zero, suc, ◌-◌, ◌*◌, ◌<◌, ◌≡◌, refl, List, [], ◌∷◌, ◌++◌, Option, none, some, String, true,
  false, if◌then◌else◌, arith, Bool-cases, inl, inr, length,
}
use funding_carry.Clock.{Time, after, before}
use funding_carry.TimeMap
use funding_carry.Decimal.{Decimal}
use funding_carry.Db.Rows.Market.{BarRow}
use funding_carry.Db.Rows.Trading.{FundingEventRow}
use funding_carry.Ingest.Trades.Handler.{SinkError}
use funding_carry.Ingest.Funding.{Funding, series}
use funding_carry.Ingest.Funding.Runner.{accrual_row}
use funding_carry.Ingest.Backfill.{
  minute, RestCandle, one_minute, candle_row, mark_samples_from_candles,
}

abbrev pub max_candles_per_request : ℕ
max_candles_per_request = 350

abbrev pub page : ℕ
page = max_candles_per_request * minute

abbrev pub page_start : Time → Time → Time
page_start start to = if before (to - page) start then start else to - page

module _ {D : Type 0} where
  unfoldable pub file_candles :
      List (Time × RestCandle D) → List (RestCandle D) → List (Time × RestCandle D)
  file_candles out [] = out
  file_candles out (c ∷ cs) = file_candles (TimeMap.insert c.start c out) cs

  abbrev pub or_none : Option (List (RestCandle D)) → List (RestCandle D)
  or_none none = []
  or_none (some cs) = cs

  module _ (fetch : String → Time → Time → Option (List (RestCandle D))) where
    -- The loop of bars, backwards; nothing if the fuel runs out.
    unfoldable pub bars_from :
        ℕ → String → Time → Time → List (Time × RestCandle D) → Option (List (Time × RestCandle D))
    bars_from zero product start to out = none
    bars_from (suc fuel) product start to out = elim (after to start) [
      | true ↦
          bars_from fuel product start (to - page)
            (file_candles out (or_none (fetch product (page_start start to) to)))
      | false ↦ some out
    ]

    -- A round goes back by a page, so the fuel is enough.
    unfoldable pub bars : String → Time → Time → Option (List (Time × RestCandle D))
    bars product start end = bars_from (suc (end - start)) product start end []

    bars_from-ends :
        (fuel : ℕ) (product : String) (start to : Time) (out : List (Time × RestCandle D))
        → to - start < fuel
        → (bs : List (Time × RestCandle D)) × bars_from fuel product start to out ≡ some bs
    unfolding bars_from
    bars_from-ends zero product start to out lt = absurd (omega arith)
    bars_from-ends (suc fuel) product start to out lt = elim (Bool-cases (after to start)) [
      | inl more ↦
          rw (bars_from, more) (bars_from-ends fuel product start (to - page) _ (ground arith))
      | inr over ↦ rw (bars_from, over) (out, refl)
    ]

    -- The paging ends, whatever the client answers.
    pub bars_ends :
        (product : String) (start end : Time)
        → (bs : List (Time × RestCandle D)) × bars product start end ≡ some bs
    unfolding bars
    bars_ends product start end =
        bars_from-ends (suc (end - start)) product start end [] (omega arith)

-- The candles of a product with what was fetched, the number that were not there, the rows that the sink
-- took or refused, in order, and its error, which ends the run.
pub record Gathered (D : Type 0) : Type 0 where
  pub candles : List (Time × RestCandle D)
  pub fetched : ℕ
  pub rows : List (BarRow D)
  pub failure : Option SinkError

module _ {D : Type 0} where
  abbrev pub count_new : Option (RestCandle D) → ℕ → ℕ
  count_new none n = suc n
  count_new (some c) n = n

  -- The loop of gather over what was fetched, in the order of an iteration over the map.
  unfoldable pub take_fetched :
      (BarRow D → Option SinkError) → String → Gathered D → List (Time × RestCandle D) → Gathered D
  take_fetched sink product g [] = g
  take_fetched sink product g ((at, c) ∷ others) =
      let g' = record g {
        candles = TimeMap.insert at c g.candles;
        fetched = count_new (TimeMap.lookup at g.candles) g.fetched;
        rows = g.rows ++ candle_row c product one_minute ∷ [];
      } in
      elim (sink (candle_row c product one_minute)) [
        | none ↦ take_fetched sink product g' others
        | some e ↦ record g' { failure = some e }
      ]

module _ {D : Type 0} ⦃dec : Decimal D⦄ where
  -- The rows of a series, until the sink fails.
  unfoldable pub submit_series :
      (FundingEventRow D → Option SinkError)
      → String
      → List (Funding D)
      → List (FundingEventRow D) × Option SinkError
  submit_series sink perp [] = ([], none)
  submit_series sink perp (f ∷ fs) = elim (sink (accrual_row perp f "backfilled" none)) [
    | none ↦
        let rest = submit_series sink perp fs in
        (accrual_row perp f "backfilled" none ∷ rest.0, rest.1)
    | some e ↦ (accrual_row perp f "backfilled" none ∷ [], some e)
  ]

  abbrev pub nothing_computed :
      (List (Funding D) × ℕ) × (List (FundingEventRow D) × Option SinkError)
  nothing_computed = (([], 0), ([], none))

  -- funding, over the hours to compute; there are no rates without marks or without hours.
  unfoldable pub reconstruct :
      (FundingEventRow D → Option SinkError)
      → String
      → List Time
      → List (Time × RestCandle D)
      → List (Time × RestCandle D)
      → (List (Funding D) × ℕ) × (List (FundingEventRow D) × Option SinkError)
  unfolding submit_series
  reconstruct sink product hours perp spot =
      let samples = mark_samples_from_candles perp spot in
      let made = series hours samples none in
      elim samples [
        | [] ↦ nothing_computed
        | s ∷ more ↦ elim hours [
          | [] ↦ nothing_computed
          | h ∷ hs ↦ ((made.0, length made.1), submit_series sink product made.0)
        ]
      ]
