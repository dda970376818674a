-- ===== src/Exec/Metrics.antt =====
-- internal/exec/metrics.go, `venueMetrics`: what the tracker hands to Prometheus for one venue. A
-- histogram and a counter are the list of what was observed, newest first; a gauge is its value.
use funding_carry.Prelude.{ℕ, List, [], ◌∷◌, Option}
use funding_carry.Clock.{Duration}
use funding_carry.Carry.{Leg}
use funding_carry.Exec.Status.{Outcome}

-- The leg is `none` for the empty label of an adopted order.
pub record VenueMetrics : Type 0 where
  pub roundtrips : List Duration
  pub acks : List (Option Leg × Duration)
  pub ack_timeouts : List (Option Leg)
  pub reports : List Outcome
  pub open_orders : ℕ
  pub overdue_orders : ℕ

-- `Metrics.venue`: both gauges exist at zero, and nothing is observed.
abbrev pub venue : VenueMetrics
venue = record {
  roundtrips = [];
  acks = [];
  ack_timeouts = [];
  reports = [];
  open_orders = 0;
  overdue_orders = 0;
}

abbrev pub observe_roundtrip : VenueMetrics → Duration → VenueMetrics
observe_roundtrip m d = record m { roundtrips = d ∷ m.roundtrips }

abbrev pub observe_ack : VenueMetrics → Option Leg → Duration → VenueMetrics
observe_ack m leg d = record m { acks = (leg, d) ∷ m.acks }

abbrev pub ack_timed_out : VenueMetrics → Option Leg → VenueMetrics
ack_timed_out m leg = record m { ack_timeouts = leg ∷ m.ack_timeouts }

abbrev pub observe_open : VenueMetrics → ℕ → VenueMetrics
observe_open m n = record m { open_orders = n }

abbrev pub observe_overdue : VenueMetrics → ℕ → VenueMetrics
observe_overdue m n = record m { overdue_orders = n }

abbrev pub report : VenueMetrics → Outcome → VenueMetrics
report m o = record m { reports = o ∷ m.reports }
