-- ===== src/Config/Sections.antt =====
-- internal/config/config.go and log.go: the parts of a configuration, read in the code's order.
use funding_carry.Prelude.{ℕ, [], ◌∷◌, ◌++◌, String, false, ◌||◌, if◌then◌else◌, ◌*◌}
use funding_carry.Prelude.Int.{pos}
use funding_carry.Clock.{Duration}
use funding_carry.Decimal.{Decimal}
use funding_carry.Config.Bytes.{codes, to_lower}
use funding_carry.Config.Window.{bytes_eq}
use funding_carry.Config.Loader.{
  Environment, rejected, unknown_log_format, unknown_log_level, Reading, second_ns, times, value,
  required_value, or_reject, bool_value, positive_int, seconds, duration, instant, decimal,
  decimal_list,
}
use funding_carry.Config.Records.{
  LogConfig, Common, CoinbaseEndpoints, BaseEndpoints, PollIntervals, FixSession, Signals,
  RiskLimits, TreasuryTimeouts, FillModel, Secrets,
}

abbrev millisecond_ns : ℕ
millisecond_ns = 1000000

abbrev pub some_seconds : ℕ → Duration
some_seconds n = pos (n * second_ns)

module _ {D L : Type 0} (env : Environment D L) where
  unfoldable pub log_config : Reading LogConfig
  unfolding value
  log_config =
      let format = to_lower (codes (value env "LOG_FORMAT" "json")) in
      let level =
        or_reject "LOG_LEVEL" (value env "LOG_LEVEL" "info") unknown_log_level (pos 0)
          (env.parse_level (codes (value env "LOG_LEVEL" "info"))) in
      (
        record { level = level.0; format = format },
        (if bytes_eq format (codes "json") || bytes_eq format (codes "text")
              then []
              else rejected "LOG_FORMAT" format unknown_log_format ∷ [])
            ++ level.1,
      )

  unfoldable pub common_section : String → String → Reading Common
  unfolding log_config required_value value
  common_section addr_key addr_default =
      let url = required_value env "DATABASE_URL" in
      let perp = required_value env "PERP_PRODUCT_ID" in
      let spot = required_value env "SPOT_PRODUCT_ID" in
      let log = log_config in
      (
        record {
          database_url = url.0;
          asset = value env "ASSET" "ETH";
          perp_product_id = perp.0;
          spot_product_id = spot.0;
          metrics_addr = value env addr_key addr_default;
          log = log.0;
        },
        url.1 ++ perp.1 ++ spot.1 ++ log.1,
      )

  unfoldable pub coinbase_section : CoinbaseEndpoints
  unfolding value
  coinbase_section = record {
    api_url = value env "CB_API_URL" "https://api.coinbase.com/api/v3/brokerage/";
    ws_url = value env "CB_WS_URL" "wss://advanced-trade-ws.coinbase.com";
  }

  unfoldable pub base_section : BaseEndpoints
  unfolding value
  base_section = record {
    rpc_url = value env "BASE_RPC_URL" "";
    alchemy_key = value env "ALCHEMY_API_KEY" "";
    usdc = value env "BASE_USDC_CONTRACT" "0x833589fCD6eDb6E08f4c7C32D4f71b54bdA02913";
    weth = value env "BASE_WETH_CONTRACT" "0x4200000000000000000000000000000000000006";
    spot_pool = value env "BASE_SPOT_POOL" "0xd0b53D9277642d899DF5C87A3966A349A798F224";
  }

  unfoldable pub poll_section : Reading PollIntervals
  unfolding seconds
  poll_section =
      let rest = seconds env "POLL_REST_SECS" (some_seconds 5) in
      let base = seconds env "POLL_BASE_SECS" (some_seconds 30) in
      let snap = seconds env "BOOK_SNAP_SECS" (some_seconds 10) in
      (record { rest = rest.0; base = base.0; book_snap = snap.0 }, rest.1 ++ base.1 ++ snap.1)

  unfoldable pub fix_section : Reading FixSession
  unfolding value positive_int
  fix_section =
      let port = positive_int env "FIX_PORT" (pos 5001) in
      (
        record {
          sender = value env "FIX_SENDER" "CARRY";
          target = value env "FIX_TARGET" "SIMV";
          host = value env "FIX_HOST" "sim-venue";
          port = port.0;
          store_path = value env "FIX_STORE_PATH" "/var/lib/carry/fix";
        },
        port.1,
      )

  unfoldable pub treasury_section : Reading TreasuryTimeouts
  unfolding duration
  treasury_section =
      let transfer = duration env "TREASURY_TRANSFER_TIMEOUT" (pos (5 * 60 * second_ns)) in
      let sweep = duration env "TREASURY_SWEEP_TIMEOUT" (pos (24 * 3600 * second_ns)) in
      let settlement = duration env "TREASURY_SETTLEMENT_TIMEOUT" (pos (2 * 3600 * second_ns)) in
      let base_tx = duration env "TREASURY_BASE_TX_TIMEOUT" (pos (10 * 60 * second_ns)) in
      (
        record {
          transfer = transfer.0;
          sweep = sweep.0;
          settlement = settlement.0;
          base_tx = base_tx.0;
        },
        transfer.1 ++ sweep.1 ++ settlement.1 ++ base_tx.1,
      )

  module _ ⦃dec : Decimal D⦄ where
    unfoldable pub signals_section : Reading (Signals D)
    unfolding decimal decimal_list positive_int
    signals_section =
        let enter = decimal env "Z_ENTER" "1.5" in
        let exit = decimal env "Z_EXIT" "0.5" in
        let flip = decimal env "F_FLIP" "0" in
        let cost = decimal env "K_COST_MULT" "2" in
        let hours = positive_int env "CARRY_HORIZON_HOURS" (pos 168) in
        let basis = decimal env "BASIS_EXTREME" "0.007" in
        let spread = decimal env "SPREAD_MAX_BPS" "5" in
        let weights = decimal_list env "PRESSURE_WEIGHTS" "0.5,0.3,0.2" 3 in
        (
          record {
            z_enter = enter.0;
            z_exit = exit.0;
            f_flip = flip.0;
            k_cost_mult = cost.0;
            horizon_hours = hours.0;
            basis_extreme = basis.0;
            spread_max_bps = spread.0;
            pressure_weights = weights.0;
          },
          enter.1 ++ exit.1 ++ flip.1 ++ cost.1 ++ hours.1 ++ basis.1 ++ spread.1 ++ weights.1,
        )

    unfoldable pub risk_section : Reading (RiskLimits D)
    unfolding decimal bool_value seconds
    risk_section =
        let tolerance = decimal env "DELTA_TOLERANCE_ETH" "0.05" in
        let notional = decimal env "MAX_NOTIONAL_USD" "500" in
        let leverage = decimal env "MAX_LEVERAGE" "3" in
        let ratio = decimal env "MARGIN_RATIO_FLOOR" "1.5" in
        let intraday = bool_value env "INTRADAY_MARGIN_OPT_IN" false in
        let loss = decimal env "DAILY_LOSS_LIMIT_USD" "50" in
        let recon = decimal env "FUNDING_RECON_TOLERANCE_USD" "0.02" in
        let stale = seconds env "STALE_FEED_SECS" (some_seconds 60) in
        let kill = bool_value env "KILL_SWITCH" false in
        (
          record {
            delta_tolerance_eth = tolerance.0;
            max_notional_usd = notional.0;
            max_leverage = leverage.0;
            margin_ratio_floor = ratio.0;
            intraday_margin_opt_in = intraday.0;
            daily_loss_limit_usd = loss.0;
            funding_recon_tolerance_usd = recon.0;
            stale_feed = stale.0;
            kill_switch = kill.0;
          },
          tolerance.1 ++ notional.1 ++ leverage.1 ++ ratio.1 ++ intraday.1 ++ loss.1 ++ recon.1
              ++ stale.1 ++ kill.1,
        )

    unfoldable pub fill_section : Reading (FillModel D)
    unfolding decimal positive_int seconds
    fill_section =
        let latency = positive_int env "SIM_LATENCY_MS" (pos 20) in
        let slippage = decimal env "SIM_SLIPPAGE_BPS" "2" in
        let threshold = decimal env "SIM_PARTIAL_THRESHOLD" "10" in
        let slices = positive_int env "SIM_PARTIAL_SLICES" (pos 3) in
        let poll = seconds env "SIM_BOOK_POLL_SECS" (some_seconds 1) in
        let age = seconds env "SIM_BOOK_MAX_AGE_SECS" (some_seconds 60) in
        (
          record {
            latency = times latency.0 millisecond_ns;
            slippage_bps = slippage.0;
            partial_threshold = threshold.0;
            partial_slices = slices.0;
            book_poll = poll.0;
            book_max_age = age.0;
          },
          latency.1 ++ slippage.1 ++ threshold.1 ++ slices.1 ++ poll.1 ++ age.1,
        )

    unfoldable pub secrets_section : Reading (Secrets D)
    unfolding decimal instant value
    secrets_section =
        let expiry = instant env "SESSION_KEY_EXPIRY" in
        let allowance = decimal env "SESSION_KEY_ALLOWANCE_USD" "0" in
        (
          record {
            cb_api_key_name = value env "CB_API_KEY_NAME" "";
            cb_api_private_key = value env "CB_API_PRIVATE_KEY" "";
            cb_portfolio_id = value env "CB_PORTFOLIO_ID" "";
            wallet_address = value env "WALLET_ADDRESS" "";
            session_key = value env "SESSION_KEY" "";
            session_key_router = value env "SESSION_KEY_ROUTER" "";
            session_key_expiry = expiry.0;
            session_key_allowance_usd = allowance.0;
            gas_policy_id = value env "GAS_POLICY_ID" "";
          },
          expiry.1 ++ allowance.1,
        )
