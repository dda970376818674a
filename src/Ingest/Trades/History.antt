-- ===== src/Ingest/Trades/History.antt =====
-- internal/ingest/trades.go: what the stream does with its handler, and what any of it keeps: a predicate
-- on each product, its rows and the time of the latest tick, from what filing a trade and closing a bucket
-- do to it.
use funding_carry.Prelude.{
  ℕ, ◌≤◌, ◌≡◌, ◌∷◌, [], List, Option, none, some, String, true, false, if◌then◌else◌,
}
use funding_carry.Prelude.Int.{ℤ}
use funding_carry.Prelude.Text.{str_eq}
use funding_carry.Clock.{Time, is_zero_time}
use funding_carry.Decimal.{Decimal}
use funding_carry.Db.Rows.Market.{TradesAggRow}
use funding_carry.Ingest.Trades.{TradeSample}
use funding_carry.Ingest.Trades.Handler.{
  ProductTrades, TradesHandler, TradeWire, SinkError, reset_product, reset, file_trade, handle,
}
use funding_carry.Ingest.Trades.Tick.{elapsed, bucket_row, without_bucket, admit, tick}

-- A message, a reconnect, a tick.
pub data Op : Type 0 where
  handles : Option (List TradeWire) → Op
  resets : Op
  ticks : Time → Op

-- The ticks do not go back from this time.
abbrev pub IsClocked : Time → List Op → Type 0
IsClocked clock [] = Unit
IsClocked clock (handles msg ∷ ops) = IsClocked clock ops
IsClocked clock (resets ∷ ops) = IsClocked clock ops
IsClocked clock (ticks now ∷ ops) = (clock ≤ now) × IsClocked now ops

-- The rows of a product.
abbrev pub rows_of : {D : Type 0} → String → List (TradesAggRow D) → List (TradesAggRow D)
rows_of product [] = []
rows_of product (r ∷ rows) =
    if str_eq r.product_id product then r ∷ rows_of product rows else rows_of product rows

module _ {D : Type 0} ⦃dec : Decimal D⦄ (parse : String → Option D)
    (sink : TradesAggRow D → Option SinkError) where
  -- The handler and the rows handed to the sink, the newest first; a failure of the sink stops it, and
  -- nothing comes out where a tick does not return.
  unfoldable pub run :
      TradesHandler D
      → List (TradesAggRow D)
      → List Op
      → Option (TradesHandler D × List (TradesAggRow D))
  run h rows [] = some (h, rows)
  run h rows (handles msg ∷ ops) = run (handle parse h msg).0 rows ops
  run h rows (resets ∷ ops) = run (reset h) rows ops
  run h rows (ticks now ∷ ops) = elim (tick sink h now rows) [
    | none ↦ none
    | some t ↦
        let h' = record h { state = t.state } in
        let more = run h' t.rows ops in elim t.failure [ none ↦ more | some e ↦ some (h', t.rows) ]
  ]

-- What each part of the handler keeps.
pub record Keeps {D : Type 0} ⦃dec : Decimal D⦄ (interval : ℕ) (secs : ℤ)
    (P : Time → String → ProductTrades D → List (TradesAggRow D) → Type 0) : Type 0 where
  pub files :
      (c : Time) (q : String) (p : ProductTrades D) (rows : List (TradesAggRow D)) (id : String)
      (t : TradeSample D)
      → P c q p rows
      → P c q (file_trade interval p id t) rows
  pub raises :
      (c : Time) (q : String) (p : ProductTrades D) (rows : List (TradesAggRow D)) (high : Time)
      → P c q p rows
      → P c q (record p { batch_max = high }) rows
  pub resets :
      (c : Time) (q : String) (p : ProductTrades D) (rows : List (TradesAggRow D))
      → P c q p rows
      → P c q (reset_product p) rows
  pub waits :
      (c now : Time) (q : String) (p : ProductTrades D) (rows : List (TradesAggRow D))
      → c ≤ now
      → P c q p rows
      → P now q p rows
  pub admits :
      (now : Time) (q : String) (p : ProductTrades D) (rows : List (TradesAggRow D))
      → is_zero_time p.next ≡ true
      → P now q p rows
      → P now q (admit interval now p) rows
  pub closes :
      (now : Time) (q : String) (p : ProductTrades D) (rows : List (TradesAggRow D))
      → elapsed interval p.next now ≡ true
      → is_zero_time p.next ≡ false
      → P now q p rows
      → P now q (without_bucket interval p) (bucket_row interval secs q p ∷ rows)
