-- ===== src/Config/Records.antt =====
-- internal/config/config.go and log.go: what each binary is configured with.
use funding_carry.Prelude.{List, String, Bool, not}
use funding_carry.Prelude.Int.{ℤ}
use funding_carry.Prelude.Text.{str_eq}
use funding_carry.Clock.{Time, Duration}
use funding_carry.Config.Bytes.{Bytes}
use funding_carry.Config.Window.{MaintenanceWindow}

abbrev pub Secret : Type 0
Secret = String

abbrev pub redacted : String
redacted = "[REDACTED]"

-- String, GoString, LogValue and MarshalText; MarshalJSON has it in quotes.
unfoldable pub rendered : Secret → String
rendered s = redacted

unfoldable pub reveal : Secret → String
reveal s = s

unfoldable pub is_set : Secret → Bool
is_set s = not (str_eq s "")

pub record LogConfig : Type 0 where
  pub level : ℤ
  pub format : Bytes

pub record Common : Type 0 where
  pub database_url : String
  pub asset : String
  pub perp_product_id : String
  pub spot_product_id : String
  pub metrics_addr : String
  pub log : LogConfig

pub record CoinbaseEndpoints : Type 0 where
  pub api_url : String
  pub ws_url : String

pub record BaseEndpoints : Type 0 where
  pub rpc_url : String
  pub alchemy_key : Secret
  pub usdc : String
  pub weth : String
  pub spot_pool : String

pub record PollIntervals : Type 0 where
  pub rest : Duration
  pub base : Duration
  pub book_snap : Duration

pub record FixSession : Type 0 where
  pub sender : String
  pub target : String
  pub host : String
  pub port : ℤ
  pub store_path : String

pub record Signals (D : Type 0) : Type 0 where
  pub z_enter : D
  pub z_exit : D
  pub f_flip : D
  pub k_cost_mult : D
  pub horizon_hours : ℤ
  pub basis_extreme : D
  pub spread_max_bps : D
  pub pressure_weights : List D

pub record RiskLimits (D : Type 0) : Type 0 where
  pub delta_tolerance_eth : D
  pub max_notional_usd : D
  pub max_leverage : D
  pub margin_ratio_floor : D
  pub intraday_margin_opt_in : Bool
  pub daily_loss_limit_usd : D
  pub funding_recon_tolerance_usd : D
  pub stale_feed : Duration
  pub kill_switch : Bool

pub record TreasuryTimeouts : Type 0 where
  pub transfer : Duration
  pub sweep : Duration
  pub settlement : Duration
  pub base_tx : Duration

pub record Execution : Type 0 where
  pub order_timeout : Duration

pub record FillModel (D : Type 0) : Type 0 where
  pub latency : Duration
  pub slippage_bps : D
  pub partial_threshold : D
  pub partial_slices : ℤ
  pub book_poll : Duration
  pub book_max_age : Duration

pub record Secrets (D : Type 0) : Type 0 where
  pub cb_api_key_name : Secret
  pub cb_api_private_key : Secret
  pub cb_portfolio_id : Secret
  pub wallet_address : Secret
  pub session_key : Secret
  pub session_key_router : Secret
  pub session_key_expiry : Time
  pub session_key_allowance_usd : D
  pub gas_policy_id : Secret

pub record Ingest (D L : Type 0) : Type 0 where
  pub common : Common
  pub coinbase : CoinbaseEndpoints
  pub base : BaseEndpoints
  pub poll : PollIntervals
  pub backfill : Duration
  pub maintenance : MaintenanceWindow L
  pub secrets : Secrets D

pub record Carry (D L : Type 0) : Type 0 where
  pub common : Common
  pub coinbase : CoinbaseEndpoints
  pub base : BaseEndpoints
  pub contract_size_eth : D
  pub signals : Signals D
  pub risk : RiskLimits D
  pub treasury : TreasuryTimeouts
  pub execution : Execution
  pub fix : FixSession
  pub maintenance : MaintenanceWindow L
  pub venue_refresh : Duration
  pub secrets : Secrets D

pub record MigrateCmd (D : Type 0) : Type 0 where
  pub database_url : String
  pub perp_product_id : String
  pub contract_size_eth : D
  pub log : LogConfig

pub record SimVenue (D : Type 0) : Type 0 where
  pub common : Common
  pub fix : FixSession
  pub fill : FillModel D
