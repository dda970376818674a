-- ===== src/Config/Rails.antt =====
-- internal/config/config.go: a configuration is loaded exactly when everything was read and the rails hold.
use funding_carry.Prelude.{◌≡◌, List, [], ◌∷◌, true, false, ◌↔◌, refl, arith}
use funding_carry.Prelude.Int.{ltb_ℤ}
use funding_carry.Prelude.Text.{str_eq}
use funding_carry.Decimal.{Decimal, less_than, less_than_or_equal, greater_than}
use funding_carry.Config.Loader.{Environment, ConfigError}
use funding_carry.Config.Records.{Carry, SimVenue}
use funding_carry.Config.Load.{
  Refusal, loaded, judged, sim_venue_comp_id, half, max_overnight_leverage, sim_only,
  validate_carry, validate_sim_venue, read_carry, read_sim_venue, load_carry, load_sim_venue,
}

-- No intraday margin, a leverage above 0 and at most 3, whole contracts of a positive size that a
-- delta tolerance is at most half of, and the simulator as the session's target.
pub record CarryRails {D L : Type 0} ⦃dec : Decimal D⦄ (c : Carry D L) : Type 0 where
  pub overnight : c.risk.intraday_margin_opt_in ≡ false
  pub leveraged : greater_than c.risk.max_leverage dec.zero ≡ true
  pub capped : less_than_or_equal c.risk.max_leverage max_overnight_leverage ≡ true
  pub sized : greater_than c.contract_size_eth dec.zero ≡ true
  pub tolerant : less_than_or_equal c.risk.delta_tolerance_eth (half c.contract_size_eth) ≡ true
  pub simulated : str_eq c.fix.target sim_venue_comp_id ≡ true

-- Slippage that is against the order or none, a positive size to slice from, a book that is not stale
-- before it is read again, and the simulator's own id.
pub record SimVenueRails {D : Type 0} ⦃dec : Decimal D⦄ (c : SimVenue D) : Type 0 where
  pub adverse : less_than c.fill.slippage_bps dec.zero ≡ false
  pub sliced : greater_than c.fill.partial_threshold dec.zero ≡ true
  pub refreshed : ltb_ℤ c.fill.book_max_age c.fill.book_poll ≡ false
  pub simulated : str_eq c.fix.target sim_venue_comp_id ≡ true

module _ {D : Type 0} where
  judged-loaded :
      (errors : List ConfigError) (refusals : List (Refusal D))
      → judged errors refusals ≡ loaded
      → errors ≡ [] × refusals ≡ []
  judged-loaded [] [] h = (refl, refl)
  judged-loaded [] (r ∷ rs) h = ground arith
  judged-loaded (e ∷ es) refusals h = ground arith

  judged-nil :
      (errors : List ConfigError) (refusals : List (Refusal D))
      → errors ≡ []
      → refusals ≡ []
      → judged errors refusals ≡ loaded
  judged-nil errors refusals h k = rw (h, k) refl

  module _ ⦃dec : Decimal D⦄ where
    validate_carry-nil : {L : Type 0} (c : Carry D L) → validate_carry c ≡ [] → CarryRails c
    unfolding validate_carry sim_only
    validate_carry-nil c h = record {
      overnight = ground arith;
      leveraged = ground arith;
      capped = ground arith;
      sized = ground arith;
      tolerant = ground arith;
      simulated = ground arith;
    }

    validate_carry-rails : {L : Type 0} (c : Carry D L) → CarryRails c → validate_carry c ≡ []
    unfolding validate_carry sim_only
    validate_carry-rails c h = ground arith

    validate_sim_venue-nil : (c : SimVenue D) → validate_sim_venue c ≡ [] → SimVenueRails c
    unfolding validate_sim_venue sim_only
    validate_sim_venue-nil c h = record {
      adverse = ground arith;
      sliced = ground arith;
      refreshed = ground arith;
      simulated = ground arith;
    }

    validate_sim_venue-rails : (c : SimVenue D) → SimVenueRails c → validate_sim_venue c ≡ []
    unfolding validate_sim_venue sim_only
    validate_sim_venue-rails c h = ground arith

module _ {D L : Type 0} ⦃dec : Decimal D⦄ (env : Environment D L) where
  -- For every environment: the loads of carry and of the simulator succeed exactly when every variable
  -- could be read and what was read keeps the binary's rails.
  pub loads-rails :
      ((load_carry env).1 ≡ loaded ↔ ((read_carry env).1 ≡ [] × CarryRails (read_carry env).0))
      × ((load_sim_venue env).1 ≡ loaded
          ↔ ((read_sim_venue env).1 ≡ [] × SimVenueRails (read_sim_venue env).0))
  unfolding load_carry load_sim_venue
  loads-rails = (
    (
      λ h.
          let parts = judged-loaded (read_carry env).1 (validate_carry (read_carry env).0) h in
          (parts.0, validate_carry-nil (read_carry env).0 parts.1),
      λ (errors, rails).
          judged-nil (read_carry env).1 (validate_carry (read_carry env).0) errors
            (validate_carry-rails (read_carry env).0 rails),
    ),
    (
      λ h.
          let parts =
            judged-loaded (read_sim_venue env).1 (validate_sim_venue (read_sim_venue env).0) h in
          (parts.0, validate_sim_venue-nil (read_sim_venue env).0 parts.1),
      λ (errors, rails).
          judged-nil (read_sim_venue env).1 (validate_sim_venue (read_sim_venue env).0) errors
            (validate_sim_venue-rails (read_sim_venue env).0 rails),
    ),
  )
