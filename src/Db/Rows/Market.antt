-- ===== src/Db/Rows/Market.antt =====
-- internal/db/rows.go: the rows that ingestion writes of the market and of the Base chain.
use funding_carry.Prelude.{List, [], ◌∷◌, Option, String, ℕ, Bool}
use funding_carry.Prelude.Int.{ℤ}
use funding_carry.Clock.{Time}
use funding_carry.Db.Rows.Values.{
  Shape, Value, text, stamp, bool_value, decimal_value, decimal_values, int_value, null_count,
  null_decimal, null_int, text_value, time_value,
}

pub record VenueStateRow (D : Type 0) : Type 0 where
  pub ts : Time
  pub product_id : String
  pub futures_mark : Option D
  pub spot_mark : Option D
  pub mid : Option D
  pub funding_rate_hourly : Option D
  pub funding_rate_est : Option D
  pub funding_source : String
  pub funding_annualized : Option D
  pub premium_proxy : Option D
  pub spread_bps : Option D
  pub open_interest : Option D
  pub maintenance_window : Bool

abbrev pub venue_state_shape : Shape
venue_state_shape = record {
  table = "cb_venue_state";
  columns =
      "ts" ∷ "product_id" ∷ "futures_mark" ∷ "spot_mark" ∷ "mid" ∷ "funding_rate_hourly"
      ∷ "funding_rate_est" ∷ "funding_source" ∷ "funding_annualized" ∷ "premium_proxy"
      ∷ "spread_bps" ∷ "open_interest" ∷ "maintenance_window" ∷ [];
  conflict = "ON CONFLICT (product_id, ts) DO NOTHING";
}

unfoldable pub venue_state_values : {D S : Type 0} → VenueStateRow D → List (Value D S)
unfolding text stamp
venue_state_values r =
    time_value r.ts
    ∷ text_value r.product_id
    ∷ null_decimal r.futures_mark
    ∷ null_decimal r.spot_mark
    ∷ null_decimal r.mid
    ∷ null_decimal r.funding_rate_hourly
    ∷ null_decimal r.funding_rate_est
    ∷ text r.funding_source
    ∷ null_decimal r.funding_annualized
    ∷ null_decimal r.premium_proxy
    ∷ null_decimal r.spread_bps
    ∷ null_decimal r.open_interest
    ∷ bool_value r.maintenance_window
    ∷ []

pub record BarRow (D : Type 0) : Type 0 where
  pub ts : Time
  pub product_id : String
  pub tf : String
  pub opening : D
  pub high : D
  pub low : D
  pub closing : D
  pub volume : D
  pub trade_count : Option ℤ

abbrev pub bar_shape : Shape
bar_shape = record {
  table = "cb_bars";
  columns =
      "ts" ∷ "product_id" ∷ "tf" ∷ "open" ∷ "high" ∷ "low" ∷ "close" ∷ "volume" ∷ "trade_count"
      ∷ [];
  conflict = "ON CONFLICT (product_id, tf, ts) DO NOTHING";
}

unfoldable pub bar_values : {D S : Type 0} → BarRow D → List (Value D S)
bar_values r =
    time_value r.ts
    ∷ text_value r.product_id
    ∷ text_value r.tf
    ∷ decimal_value r.opening
    ∷ decimal_value r.high
    ∷ decimal_value r.low
    ∷ decimal_value r.closing
    ∷ decimal_value r.volume
    ∷ null_int r.trade_count
    ∷ []

pub record BookSnapshotRow (D : Type 0) : Type 0 where
  pub ts : Time
  pub product_id : String
  pub best_bid : Option D
  pub best_ask : Option D
  pub bid_px : List D
  pub bid_depth : List D
  pub ask_px : List D
  pub ask_depth : List D
  pub imbalance_top_n : Option D
  pub impact_bid_px : Option D
  pub impact_ask_px : Option D

abbrev pub book_snapshot_shape : Shape
book_snapshot_shape = record {
  table = "cb_book_snapshots";
  columns =
      "ts" ∷ "product_id" ∷ "best_bid" ∷ "best_ask" ∷ "bid_px" ∷ "bid_depth" ∷ "ask_px"
      ∷ "ask_depth" ∷ "imbalance_top_n" ∷ "impact_bid_px" ∷ "impact_ask_px" ∷ [];
  conflict = "ON CONFLICT (product_id, ts) DO NOTHING";
}

unfoldable pub book_snapshot_values : {D S : Type 0} → BookSnapshotRow D → List (Value D S)
book_snapshot_values r =
    time_value r.ts
    ∷ text_value r.product_id
    ∷ null_decimal r.best_bid
    ∷ null_decimal r.best_ask
    ∷ decimal_values r.bid_px
    ∷ decimal_values r.bid_depth
    ∷ decimal_values r.ask_px
    ∷ decimal_values r.ask_depth
    ∷ null_decimal r.imbalance_top_n
    ∷ null_decimal r.impact_bid_px
    ∷ null_decimal r.impact_ask_px
    ∷ []

pub record TradesAggRow (D : Type 0) : Type 0 where
  pub ts : Time
  pub product_id : String
  pub bucket_secs : ℤ
  pub buy_vol : D
  pub sell_vol : D
  pub trade_count : ℤ
  pub vwap : Option D
  pub max_single_sz : Option D
  pub sweep_count : Option ℕ

abbrev pub trades_agg_shape : Shape
trades_agg_shape = record {
  table = "cb_trades_agg";
  columns =
      "ts" ∷ "product_id" ∷ "bucket_secs" ∷ "buy_vol" ∷ "sell_vol" ∷ "trade_count" ∷ "vwap"
      ∷ "max_single_sz" ∷ "sweep_count" ∷ [];
  conflict = "ON CONFLICT (product_id, bucket_secs, ts) DO NOTHING";
}

unfoldable pub trades_agg_values : {D S : Type 0} → TradesAggRow D → List (Value D S)
trades_agg_values r =
    time_value r.ts
    ∷ text_value r.product_id
    ∷ int_value r.bucket_secs
    ∷ decimal_value r.buy_vol
    ∷ decimal_value r.sell_vol
    ∷ int_value r.trade_count
    ∷ null_decimal r.vwap
    ∷ null_decimal r.max_single_sz
    ∷ null_count r.sweep_count
    ∷ []

pub record BaseStateRow (D : Type 0) : Type 0 where
  pub ts : Time
  pub spot_px : Option D
  pub spot_px_source : String
  pub wallet_eth : Option D
  pub wallet_usdc : Option D
  pub gas_gwei : Option D

abbrev pub base_state_shape : Shape
base_state_shape = record {
  table = "base_state";
  columns = "ts" ∷ "spot_px" ∷ "spot_px_source" ∷ "wallet_eth" ∷ "wallet_usdc" ∷ "gas_gwei" ∷ [];
  conflict = "ON CONFLICT (ts) DO NOTHING";
}

unfoldable pub base_state_values : {D S : Type 0} → BaseStateRow D → List (Value D S)
unfolding text stamp
base_state_values r =
    time_value r.ts
    ∷ null_decimal r.spot_px
    ∷ text r.spot_px_source
    ∷ null_decimal r.wallet_eth
    ∷ null_decimal r.wallet_usdc
    ∷ null_decimal r.gas_gwei
    ∷ []
