-- ===== src/Ingest/Candles/Rising.antt =====
-- internal/ingest/candles.go: over any messages, and whatever the sink refuses, the rows of a product rise.
use funding_carry.Prelude.{◌∷◌, [], List, Option, String, All}
use funding_carry.TimeMap
use funding_carry.Decimal.{Decimal}
use funding_carry.Db.Rows.Market.{BarRow}
use funding_carry.Ingest.Trades.Handler.{SinkError}
use funding_carry.Ingest.Candles.{ProductCandles, Candle, persist}
use funding_carry.Ingest.Candles.Writing.{IsStamped}

-- A message for a product: what the sink answers to a row while it is handled, and the candles.
abbrev pub Batch : Type 0 → Type 0
Batch D = (BarRow D → Option SinkError) × List (Candle D)

module _ {D : Type 0} where
  abbrev pub AreStamped : List (Batch D) → Type 0
  AreStamped batches = All (λ b. All IsStamped b.1) batches

module _ {D : Type 0} ⦃dec : Decimal D⦄ (name : String) where
  -- The product after the messages, with the rows that the sink took, the newest first.
  unfoldable pub persist_all :
      ProductCandles D → List (BarRow D) → List (Batch D) → ProductCandles D × List (BarRow D)
  persist_all p rows [] = (p, rows)
  persist_all p rows ((sink, candles) ∷ batches) =
      let w = persist sink name p candles rows in persist_all w.product w.rows batches
