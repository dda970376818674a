-- ===== src/Ingest/Trades/Windows.antt =====
-- internal/ingest/trades.go: each row is made of the trades of its own window.
use funding_carry.Prelude.{ℕ, ◌+◌, ◌<◌, ◌≤◌, ◌≡◌, List, String, All}
use funding_carry.Prelude.Int.{ℤ, pos as pos_ℤ}
use funding_carry.Clock.{Time, truncate}
use funding_carry.Dict
use funding_carry.TimeMap
use funding_carry.Decimal.{Decimal}
use funding_carry.Db.Rows.Market.{TradesAggRow}
use funding_carry.Ingest.Trades.{TradeSample, aggregate}
use funding_carry.Ingest.Trades.Handler.{ProductTrades, TradeBucket}
use funding_carry.TimeMap.Laws.{AllEntries}

module _ {D : Type 0} where
  -- The trades are all of the bucket that starts then.
  abbrev IsBucket : ℕ → Time → TradeBucket D → Type 0
  IsBucket interval start b = All (λ (t : TradeSample D). truncate t.at interval ≡ start) b.trades

  -- The trades lie in the window.
  abbrev pub InWindow : ℕ → Time → List (TradeSample D) → Type 0
  InWindow interval start trades =
      All (λ (t : TradeSample D). (start ≤ t.at) × (t.at < start + interval)) trades

module _ {D : Type 0} ⦃dec : Decimal D⦄ where
  -- The row is what such trades aggregate to, stamped with the end of their window.
  abbrev pub IsAggregate : ℕ → ℤ → String → TradesAggRow D → Type 0
  IsAggregate interval secs q row =
      (start : Time) × (trades : List (TradeSample D)) × (row
        ≡ aggregate q (start + interval) secs trades)
      × InWindow interval start trades

  abbrev Windowed : ℕ → ℤ → Time → String → ProductTrades D → List (TradesAggRow D) → Type 0
  Windowed interval secs c q p rows =
      AllEntries (IsBucket interval) p.open_buckets × All (IsAggregate interval secs q) rows
