-- ===== src/Config/Examples.antt =====
-- Concrete environments and windows of internal/config.
use funding_carry.Prelude.{
  ◌≡◌, ◌*◌, ◌↔◌, refl, [], Option, none, some, String, if◌then◌else◌, arith,
}
use funding_carry.Prelude.Int.{ℤ, pos}
use funding_carry.Prelude.Text.{str_eq}
use funding_carry.Decimal.Whole.{whole, div_ℤ}
use funding_carry.Config.Bytes.{Bytes, codes, cut, atoi, to_lower, unsigned, fields, fields_from}
use funding_carry.Config.Window.{
  MaintenanceWindow, friday, ok, find_weekday, parse_time_of_day, bytes_eq, hour_ns,
  parse_maintenance_window, print_window,
}
use funding_carry.Config.Window.Printing.{parse-print_window}
use funding_carry.Config.Loader.{Environment, parse_all}
use funding_carry.Config.Load.{loaded, read_carry, read_sim_venue, load_carry, load_sim_venue}
use funding_carry.Config.Rails.{CarryRails, SimVenueRails, loads-rails}

-- One time zone.
data Zone : Type 0 where
  new_york : Zone

abbrev zone_name : Zone → Bytes
zone_name new_york = codes "America/New_York"

abbrev find_zone : Bytes → Option Zone
find_zone s = if bytes_eq s (codes "America/New_York") then some new_york else none

abbrev settings : String → Option String
settings key =
    if str_eq key "DATABASE_URL"
    then some "postgres://carry"
    else if str_eq key "PERP_PRODUCT_ID"
    then some "ETP-20DEC30-CDE"
    else if str_eq key "SPOT_PRODUCT_ID"
    then some "ETH-USD"
    else if str_eq key "CONTRACT_SIZE_ETH"
    then some "10"
    else if str_eq key "DELTA_TOLERANCE_ETH"
    then some "5"
    else none

-- The whole part of a decimal.
abbrev whole_part : Bytes → Option ℤ
whole_part s = elim (cut b'.' s) [ none ↦ atoi s | some parts ↦ atoi parts.0 ]

abbrev environment : Environment ℤ Zone
environment = record {
  lookup = settings;
  parse_duration = λ s. none;
  parse_instant = λ s. none;
  parse_level = λ s. some (pos 0);
  parse_decimal = whole_part;
  name = zone_name;
  load = find_zone;
}

settings_load : (load_carry environment).1 ≡ loaded
unfolding load_carry to_lower cut atoi unsigned parse_all parse_maintenance_window fields
    fields_from find_weekday parse_time_of_day div_ℤ
settings_load = refl

loads-rails_example :
    ((load_carry environment).1 ≡ loaded
      ↔ ((read_carry environment).1 ≡ [] × CarryRails (read_carry environment).0))
    × ((load_sim_venue environment).1 ≡ loaded
        ↔ ((read_sim_venue environment).1 ≡ [] × SimVenueRails (read_sim_venue environment).0))
loads-rails_example = loads-rails environment

abbrev closed : MaintenanceWindow Zone
closed = record {
  weekday = friday;
  start = 17 * hour_ns;
  end = 18 * hour_ns;
  location = some new_york;
}

parse-print_window_example :
    parse_maintenance_window zone_name find_zone (print_window zone_name find_zone closed)
    ≡ ok closed
parse-print_window_example =
    parse-print_window zone_name find_zone closed new_york refl (omega arith) (omega arith) refl
      refl (λ h. ground arith) (ground arith) refl
