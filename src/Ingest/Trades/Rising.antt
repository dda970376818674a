-- ===== src/Ingest/Trades/Rising.antt =====
-- internal/ingest/trades.go: the buckets of a product are written in order, each once.
use funding_carry.Prelude.{ℕ, ◌+◌, ◌<◌, ◌≤◌, ◌≡◌, List, String, false, All}
use funding_carry.Prelude.Int.{pos as pos_ℤ}
use funding_carry.Clock.{Time, is_zero_time}
use funding_carry.Dict
use funding_carry.TimeMap
use funding_carry.Decimal.{Decimal}
use funding_carry.Db.Rows.Market.{TradesAggRow}
use funding_carry.Ingest.Trades.Handler.{ProductTrades, late_grace}
use funding_carry.Prelude.Sort.{AllPairs}

module _ {D : Type 0} where
  -- The rows are stamped with falling ends, multiples of the interval that are over at the clock; the
  -- next bucket of an admitted product starts where the newest row ends, or later.
  record IsOrderly (interval : ℕ) (c : Time) (p : ProductTrades D) (rows : List (TradesAggRow D))
      : Type 0 where
    rising : AllPairs (λ (r q : TradesAggRow D). q.ts < r.ts) rows
    over : All (λ (r : TradesAggRow D). r.ts + late_grace ≤ c) rows
    ahead : is_zero_time p.next ≡ false → All (λ (r : TradesAggRow D). r.ts ≤ p.next) rows

module _ {D : Type 0} ⦃dec : Decimal D⦄ where
  abbrev Orderly : ℕ → Time → String → ProductTrades D → List (TradesAggRow D) → Type 0
  Orderly interval c q p rows = IsOrderly interval c p rows
