-- ===== src/Db/Rows/Account.antt =====
-- internal/db/rows.go: the rows of the account, the features, the products and the decisions.
-- A nil list of reason codes is written as an empty one; a list here is never nil.
use funding_carry.Prelude.{List, [], ◌∷◌, Option, String, Bool}
use funding_carry.Prelude.Int.{ℤ}
use funding_carry.Clock.{Time}
use funding_carry.Db.Rows.Values.{
  Shape, Value, text, stamp, null_bool, null_decimal, null_int, snapshot_value, text_value,
  text_values, time_value,
}

pub record AccountStateRow (D : Type 0) : Type 0 where
  pub ts : Time
  pub available_margin : Option D
  pub liquidation_threshold : Option D
  pub margin_ratio : Option D
  pub cfm_usd_balance : Option D
  pub cbi_usd_balance : Option D
  pub futures_buying_power : Option D
  pub contracts_held : Option ℤ
  pub avg_entry_price : Option D
  pub unrealized_pnl : Option D
  pub intraday_margin_enabled : Option Bool

abbrev pub account_state_shape : Shape
account_state_shape = record {
  table = "cb_account_state";
  columns =
      "ts" ∷ "available_margin" ∷ "liquidation_threshold" ∷ "margin_ratio" ∷ "cfm_usd_balance"
      ∷ "cbi_usd_balance" ∷ "futures_buying_power" ∷ "contracts_held" ∷ "avg_entry_price"
      ∷ "unrealized_pnl" ∷ "intraday_margin_enabled" ∷ [];
  conflict = "ON CONFLICT (ts) DO NOTHING";
}

unfoldable pub account_state_values : {D S : Type 0} → AccountStateRow D → List (Value D S)
account_state_values r =
    time_value r.ts
    ∷ null_decimal r.available_margin
    ∷ null_decimal r.liquidation_threshold
    ∷ null_decimal r.margin_ratio
    ∷ null_decimal r.cfm_usd_balance
    ∷ null_decimal r.cbi_usd_balance
    ∷ null_decimal r.futures_buying_power
    ∷ null_int r.contracts_held
    ∷ null_decimal r.avg_entry_price
    ∷ null_decimal r.unrealized_pnl
    ∷ null_bool r.intraday_margin_enabled
    ∷ []

pub record FeatureRow (D : Type 0) : Type 0 where
  pub ts : Time
  pub product_id : String
  pub funding_rate_hourly : Option D
  pub funding_rate_est : Option D
  pub funding_source : String
  pub funding_annualized : Option D
  pub funding_zscore : Option D
  pub cumulative_funding : Option D
  pub expected_carry_n_hours : Option D
  pub futures_mark : Option D
  pub spot_mark : Option D
  pub basis : Option D
  pub trade_premium : Option D
  pub time_to_next_funding_secs : Option ℤ
  pub spread_bps : Option D
  pub tob_imbalance : Option D
  pub impact_imbalance : Option D
  pub trade_imbalance : Option D
  pub sweep_intensity : Option D
  pub mid_mark_dist : Option D
  pub slippage_est_bps : Option D
  pub log_ret1m : Option D
  pub ema_fast : Option D
  pub ema_slow : Option D
  pub atr : Option D
  pub realized_vol : Option D
  pub vwap : Option D
  pub momentum_slope : Option D
  pub margin_ratio : Option D
  pub margin_ratio_at_target : Option D
  pub effective_leverage : Option D
  pub net_delta : Option D
  pub residual_delta : Option D
  pub contracts_held : Option ℤ
  pub notional : Option D
  pub crowded_side : String
  pub pressure_level : String
  pub expected_pain : Option D
  pub exhaustion_flag : Option Bool

abbrev pub feature_shape : Shape
feature_shape = record {
  table = "cb_features";
  columns =
      "ts" ∷ "product_id" ∷ "funding_rate_hourly" ∷ "funding_rate_est" ∷ "funding_source"
      ∷ "funding_annualized" ∷ "funding_zscore" ∷ "cumulative_funding" ∷ "expected_carry_n_hours"
      ∷ "futures_mark" ∷ "spot_mark" ∷ "basis" ∷ "trade_premium" ∷ "time_to_next_funding_secs"
      ∷ "spread_bps" ∷ "tob_imbalance" ∷ "impact_imbalance" ∷ "trade_imbalance" ∷ "sweep_intensity"
      ∷ "mid_mark_dist" ∷ "slippage_est_bps" ∷ "log_ret_1m" ∷ "ema_fast" ∷ "ema_slow" ∷ "atr"
      ∷ "realized_vol" ∷ "vwap" ∷ "momentum_slope" ∷ "margin_ratio" ∷ "margin_ratio_at_target"
      ∷ "effective_leverage" ∷ "net_delta" ∷ "residual_delta" ∷ "contracts_held" ∷ "notional"
      ∷ "crowded_side" ∷ "pressure_level" ∷ "expected_pain" ∷ "exhaustion_flag" ∷ [];
  conflict = "ON CONFLICT (product_id, ts) DO NOTHING";
}

unfoldable pub feature_values : {D S : Type 0} → FeatureRow D → List (Value D S)
unfolding text stamp
feature_values r =
    time_value r.ts
    ∷ text_value r.product_id
    ∷ null_decimal r.funding_rate_hourly
    ∷ null_decimal r.funding_rate_est
    ∷ text r.funding_source
    ∷ null_decimal r.funding_annualized
    ∷ null_decimal r.funding_zscore
    ∷ null_decimal r.cumulative_funding
    ∷ null_decimal r.expected_carry_n_hours
    ∷ null_decimal r.futures_mark
    ∷ null_decimal r.spot_mark
    ∷ null_decimal r.basis
    ∷ null_decimal r.trade_premium
    ∷ null_int r.time_to_next_funding_secs
    ∷ null_decimal r.spread_bps
    ∷ null_decimal r.tob_imbalance
    ∷ null_decimal r.impact_imbalance
    ∷ null_decimal r.trade_imbalance
    ∷ null_decimal r.sweep_intensity
    ∷ null_decimal r.mid_mark_dist
    ∷ null_decimal r.slippage_est_bps
    ∷ null_decimal r.log_ret1m
    ∷ null_decimal r.ema_fast
    ∷ null_decimal r.ema_slow
    ∷ null_decimal r.atr
    ∷ null_decimal r.realized_vol
    ∷ null_decimal r.vwap
    ∷ null_decimal r.momentum_slope
    ∷ null_decimal r.margin_ratio
    ∷ null_decimal r.margin_ratio_at_target
    ∷ null_decimal r.effective_leverage
    ∷ null_decimal r.net_delta
    ∷ null_decimal r.residual_delta
    ∷ null_int r.contracts_held
    ∷ null_decimal r.notional
    ∷ text r.crowded_side
    ∷ text r.pressure_level
    ∷ null_decimal r.expected_pain
    ∷ null_bool r.exhaustion_flag
    ∷ []

pub record ProductRow (D : Type 0) : Type 0 where
  pub product_id : String
  pub contract_size : Option D
  pub tick : Option D
  pub tick_value : Option D
  pub max_leverage_overnight : Option D
  pub max_leverage_intraday : Option D
  pub maker_fee_bps : Option D
  pub taker_fee_bps : Option D
  pub status : String
  pub updated_at : Time

abbrev pub product_shape : Shape
product_shape = record {
  table = "cb_products";
  columns =
      "product_id" ∷ "contract_size" ∷ "tick" ∷ "tick_value" ∷ "max_leverage_overnight"
      ∷ "max_leverage_intraday" ∷ "maker_fee_bps" ∷ "taker_fee_bps" ∷ "status" ∷ "updated_at" ∷ [];
  conflict =
      "ON CONFLICT (product_id) DO UPDATE SET\n\t\t\tcontract_size = EXCLUDED.contract_size,\n\t\t\ttick = EXCLUDED.tick,\n\t\t\ttick_value = EXCLUDED.tick_value,\n\t\t\tmax_leverage_overnight = EXCLUDED.max_leverage_overnight,\n\t\t\tmax_leverage_intraday = EXCLUDED.max_leverage_intraday,\n\t\t\tmaker_fee_bps = EXCLUDED.maker_fee_bps,\n\t\t\ttaker_fee_bps = EXCLUDED.taker_fee_bps,\n\t\t\tstatus = EXCLUDED.status,\n\t\t\tupdated_at = EXCLUDED.updated_at";
}

unfoldable pub product_values : {D S : Type 0} → ProductRow D → List (Value D S)
unfolding text stamp
product_values r =
    text_value r.product_id
    ∷ null_decimal r.contract_size
    ∷ null_decimal r.tick
    ∷ null_decimal r.tick_value
    ∷ null_decimal r.max_leverage_overnight
    ∷ null_decimal r.max_leverage_intraday
    ∷ null_decimal r.maker_fee_bps
    ∷ null_decimal r.taker_fee_bps
    ∷ text r.status
    ∷ time_value r.updated_at
    ∷ []

pub record DecisionRow (D S : Type 0) : Type 0 where
  pub ts : Time
  pub state : String
  pub target_spot : Option D
  pub target_contracts : Option ℤ
  pub residual_delta : Option D
  pub reason_codes : List String
  pub confidence : Option D
  pub input_snapshot : S

abbrev pub decision_shape : Shape
decision_shape = record {
  table = "decisions";
  columns =
      "ts" ∷ "state" ∷ "target_spot" ∷ "target_contracts" ∷ "residual_delta" ∷ "reason_codes"
      ∷ "confidence" ∷ "input_snapshot" ∷ [];
  conflict = "ON CONFLICT (ts) DO NOTHING";
}

unfoldable pub decision_values : {D S : Type 0} → DecisionRow D S → List (Value D S)
decision_values r =
    time_value r.ts
    ∷ text_value r.state
    ∷ null_decimal r.target_spot
    ∷ null_int r.target_contracts
    ∷ null_decimal r.residual_delta
    ∷ text_values r.reason_codes
    ∷ null_decimal r.confidence
    ∷ snapshot_value r.input_snapshot
    ∷ []
