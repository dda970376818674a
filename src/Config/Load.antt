-- ===== src/Config/Load.antt =====
-- internal/config/config.go: the loads of each binary, and the rails that validate enforces.
use funding_carry.Prelude.{◌*◌, List, [], ◌∷◌, ◌++◌, String, Bool, not, ◌||◌, if◌then◌else◌}
use funding_carry.Prelude.Int.{pos, ltb_ℤ}
use funding_carry.Prelude.Text.{str_eq}
use funding_carry.Clock.{Duration}
use funding_carry.Decimal.{Decimal, less_than, less_than_or_equal, greater_than}
use funding_carry.Config.Loader.{
  Environment, ConfigError, Reading, required_value, seconds, duration, window, decimal,
}
use funding_carry.Config.Records.{Ingest, Carry, MigrateCmd, SimVenue}
use funding_carry.Config.Sections.{
  some_seconds, log_config, common_section, coinbase_section, base_section, poll_section,
  fix_section, treasury_section, signals_section, risk_section, fill_section, secrets_section,
}

-- An error of validate.
pub data Refusal (D : Type 0) : Type 0 where
  intraday_margin : Refusal D
  leverage : D → Refusal D
  contract_size : D → Refusal D
  wide_tolerance : D → D → Refusal D
  negative_slippage : D → Refusal D
  partial_threshold : D → Refusal D
  stale_before_refresh : Duration → Duration → Refusal D
  not_sim : String → String → Refusal D

-- The error of a load. What could not be read is reported without being validated.
pub data Outcome (D : Type 0) : Type 0 where
  loaded : Outcome D
  unreadable : List ConfigError → Outcome D
  refused : List (Refusal D) → Outcome D

abbrev pub default_break : String
default_break = "Fri 17:00-18:00 America/New_York"

abbrev pub sim_venue_comp_id : String
sim_venue_comp_id = "SIMV"

-- errors.Join, of no error and of one.
abbrev pub joined : {D : Type 0} → List (Refusal D) → Outcome D
joined [] = loaded
joined (r ∷ rs) = refused (r ∷ rs)

abbrev pub judged : {D : Type 0} → List ConfigError → List (Refusal D) → Outcome D
judged [] refusals = joined refusals
judged (e ∷ es) refusals = unreadable (e ∷ es)

module _ {D : Type 0} where
  abbrev pub refuse_if : Bool → Refusal D → List (Refusal D)
  refuse_if b r = if b then r ∷ [] else []

  unfoldable pub sim_only : String → String → List (Refusal D)
  sim_only key comp_id = refuse_if (not (str_eq comp_id sim_venue_comp_id)) (not_sim key comp_id)

  module _ ⦃dec : Decimal D⦄ where
    abbrev pub half : D → D
    half size = dec.div size (dec.from_int (pos 2))

    abbrev pub max_overnight_leverage : D
    max_overnight_leverage = dec.from_int (pos 3)

    unfoldable pub validate_carry : {L : Type 0} → Carry D L → List (Refusal D)
    unfolding sim_only
    validate_carry c =
        refuse_if c.risk.intraday_margin_opt_in intraday_margin
        ++ refuse_if
            (less_than_or_equal c.risk.max_leverage dec.zero
              || greater_than c.risk.max_leverage max_overnight_leverage)
            (leverage c.risk.max_leverage)
        ++ (if less_than_or_equal c.contract_size_eth dec.zero
            then contract_size c.contract_size_eth ∷ []
            else refuse_if (greater_than c.risk.delta_tolerance_eth (half c.contract_size_eth))
                (wide_tolerance c.risk.delta_tolerance_eth (half c.contract_size_eth)))
        ++ sim_only "FIX_TARGET" c.fix.target

    unfoldable pub validate_sim_venue : SimVenue D → List (Refusal D)
    unfolding sim_only
    validate_sim_venue c =
        refuse_if (less_than c.fill.slippage_bps dec.zero) (negative_slippage c.fill.slippage_bps)
        ++ refuse_if (less_than_or_equal c.fill.partial_threshold dec.zero)
            (partial_threshold c.fill.partial_threshold)
        ++ refuse_if (ltb_ℤ c.fill.book_max_age c.fill.book_poll)
            (stale_before_refresh c.fill.book_max_age c.fill.book_poll)
        ++ sim_only "FIX_TARGET" c.fix.target

module _ {D L : Type 0} ⦃dec : Decimal D⦄ (env : Environment D L) where
  unfoldable pub load_ingest : Ingest D L × Outcome D
  unfolding common_section coinbase_section base_section poll_section secrets_section duration
      window
  load_ingest =
      let common = common_section env "INGEST_METRICS_ADDR" ":9101" in
      let poll = poll_section env in
      let backfill = duration env "BACKFILL_WINDOW" (some_seconds (45 * 24 * 3600)) in
      let maintenance = window env "MAINTENANCE_BREAK" default_break in
      let secrets = secrets_section env in
      (
        record {
          common = common.0;
          coinbase = coinbase_section env;
          base = base_section env;
          poll = poll.0;
          backfill = backfill.0;
          maintenance = maintenance.0;
          secrets = secrets.0;
        },
        judged (common.1 ++ poll.1 ++ backfill.1 ++ maintenance.1 ++ secrets.1) [],
      )

  -- What loadCarry reads, with the errors of reading it.
  unfoldable pub read_carry : Reading (Carry D L)
  unfolding common_section coinbase_section base_section decimal signals_section risk_section
      treasury_section duration seconds fix_section window secrets_section
  read_carry =
      let common = common_section env "CARRY_METRICS_ADDR" ":9102" in
      let size = decimal env "CONTRACT_SIZE_ETH" "0.10" in
      let signals = signals_section env in
      let risk = risk_section env in
      let treasury = treasury_section env in
      let timeout = duration env "ORDER_TIMEOUT" (some_seconds 30) in
      let refresh = seconds env "POLL_REST_SECS" (some_seconds 5) in
      let fix = fix_section env in
      let maintenance = window env "MAINTENANCE_BREAK" default_break in
      let secrets = secrets_section env in
      (
        record {
          common = common.0;
          coinbase = coinbase_section env;
          base = base_section env;
          contract_size_eth = size.0;
          signals = signals.0;
          risk = risk.0;
          treasury = treasury.0;
          execution = record { order_timeout = timeout.0 };
          fix = fix.0;
          maintenance = maintenance.0;
          venue_refresh = refresh.0;
          secrets = secrets.0;
        },
        common.1 ++ size.1 ++ signals.1 ++ risk.1 ++ treasury.1 ++ timeout.1 ++ refresh.1 ++ fix.1
            ++ maintenance.1 ++ secrets.1,
      )

  unfoldable pub load_carry : Carry D L × Outcome D
  unfolding read_carry validate_carry
  load_carry = (read_carry.0, judged read_carry.1 (validate_carry read_carry.0))

  unfoldable pub read_sim_venue : Reading (SimVenue D)
  unfolding common_section fix_section fill_section
  read_sim_venue =
      let common = common_section env "SIM_METRICS_ADDR" ":9103" in
      let fix = fix_section env in
      let fill = fill_section env in
      (record { common = common.0; fix = fix.0; fill = fill.0 }, common.1 ++ fix.1 ++ fill.1)

  unfoldable pub load_sim_venue : SimVenue D × Outcome D
  unfolding read_sim_venue validate_sim_venue
  load_sim_venue = (read_sim_venue.0, judged read_sim_venue.1 (validate_sim_venue read_sim_venue.0))

  unfoldable pub load_migrate_cmd : MigrateCmd D × Outcome D
  unfolding required_value decimal log_config
  load_migrate_cmd =
      let url = required_value env "DATABASE_URL" in
      let perp = required_value env "PERP_PRODUCT_ID" in
      let size = decimal env "CONTRACT_SIZE_ETH" "0.10" in
      let log = log_config env in
      (
        record {
          database_url = url.0;
          perp_product_id = perp.0;
          contract_size_eth = size.0;
          log = log.0;
        },
        judged (url.1 ++ perp.1 ++ size.1 ++ log.1) [],
      )
