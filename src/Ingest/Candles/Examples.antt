-- ===== src/Ingest/Candles/Examples.antt =====
-- The theorem of the candles handler at a concrete input.
use funding_carry.Prelude.{ℕ, ◌+◌, ◌*◌, List, ◌≡◌, refl, ◌∷◌, [], Option, none, some, length}
use funding_carry.Prelude.Int.{ℤ, pos}
use funding_carry.TimeMap
use funding_carry.Decimal.Whole.{whole}
use funding_carry.Db.Rows.Market.{BarRow}
use funding_carry.Ingest.Trades.Handler.{SinkError, refused}
use funding_carry.Ingest.Candles.{
  Candle, candle_interval, candle_tf, no_candles, record_candle, closed, mark_written, persist,
}
use funding_carry.Prelude.Sort.{sort, insert_sorted}
use funding_carry.Ingest.Candles.Rising.{Batch, persist_all}

abbrev candle : ℕ → ℤ → Candle ℤ
candle n px = record {
  start = n * candle_interval;
  row = record {
    ts = n * candle_interval + candle_interval;
    product_id = "ETH";
    tf = candle_tf;
    opening = px;
    high = px;
    low = px;
    closing = px;
    volume = pos 1;
    trade_count = none;
  };
}

abbrev takes : BarRow ℤ → Option SinkError
takes row = none

abbrev refuses : BarRow ℤ → Option SinkError
refuses row = some refused

-- A window, the forming candle again, a sink that refuses, and the roll.
abbrev batches : List (Batch ℤ)
batches =
    (takes, candle 2 (pos 20) ∷ candle 1 (pos 10) ∷ candle 3 (pos 30) ∷ [])
    ∷ (takes, candle 3 (pos 31) ∷ [])
    ∷ (refuses, candle 4 (pos 40) ∷ [])
    ∷ []

three_rows :
    length
      (persist takes "ETH"
        (persist_all "ETH" no_candles [] batches).0
        (candle 4 (pos 41) ∷ [])
        (persist_all "ETH" no_candles [] batches).1).rows
    ≡ 3
unfolding persist_all persist closed sort record_candle TimeMap.insert insert_sorted mark_written
    TimeMap.delete
three_rows = refl
