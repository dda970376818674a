-- ===== src/Ingest/Trades/Examples.antt =====
-- The theorems of the trades handler at concrete inputs.
use funding_carry.Prelude.{ℕ, ◌≡◌, ◌∷◌, [], List, Option, none, some, String, All, arith}
use funding_carry.Prelude.Int.{ℤ, pos}
use funding_carry.Clock.{Time}
use funding_carry.Decimal.Whole.{whole}
use funding_carry.Dict
use funding_carry.TimeMap
use funding_carry.Db.Rows.Market.{TradesAggRow}
use funding_carry.Ingest.Trades.{TradeSample, side_buy}
use funding_carry.Ingest.Trades.Handler.{
  ProductTrades, TradesHandler, TradeWire, SinkError, new_trades_handler, add_products,
}
use funding_carry.Ingest.Trades.Tick.{Ticked, tick}
use funding_carry.Ingest.Trades.Closing.{AllCurrent, tick_ends}
use funding_carry.Ingest.Trades.History.{Op, handles, resets, ticks, run}

abbrev seven : String → Option ℤ
seven s = some (pos 7)

abbrev takes : TradesAggRow ℤ → Option SinkError
takes row = none

abbrev minute : ℕ
minute = 60000000000

abbrev wire : String → Time → TradeWire
wire id at = record {
  trade_id = id;
  product_id = "ETH";
  price = "7";
  size = "7";
  side = "BUY";
  time = at;
}

-- Admission, two trades of which one comes twice, two closings and a reconnect.
abbrev session : List Op
session =
    ticks 61000000000
    ∷ handles (some (wire "b" 130000000000 ∷ wire "a" 125000000000 ∷ wire "b" 130000000000 ∷ []))
    ∷ ticks 243000000000
    ∷ resets
    ∷ ticks 244000000000
    ∷ []

abbrev outcome : TradesHandler ℤ × List (TradesAggRow ℤ)
outcome = elim (run seven takes (new_trades_handler ("ETH" ∷ []) minute) [] session) [
  | none ↦ (new_trades_handler [] 0, [])
  | some r ↦ r
]

-- "ETH" after the session.
abbrev eth : ProductTrades ℤ
eth = record { next = 300000000000; open_buckets = []; batch_max = 0; lost_from = 0 }

tick_ends_example :
    (t : Ticked ℤ) × (tick takes (new_trades_handler ("ETH" ∷ []) minute) 61000000000 [] ≡ some t)
    × (t.failure ≡ none → All (AllCurrent minute 61000000000 t.state) ("ETH" ∷ []))
unfolding new_trades_handler add_products Dict.insert Dict.lookup
tick_ends_example =
    tick_ends takes (new_trades_handler ("ETH" ∷ []) minute) 61000000000 [] (omega arith)
      ((λ e. cc (e)), tt)

abbrev at : Time → TradeSample ℤ
at t = record { at = t; px = pos 7; sz = pos 7; side = side_buy }

abbrev admitted : ProductTrades ℤ
admitted = record { next = 120000000000; open_buckets = []; batch_max = 0; lost_from = 0 }
