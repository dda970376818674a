-- ===== src/Exec/Orders.antt =====
-- internal/exec/statemachine.go: one tracked order, and what Track, Apply and complete do to it.
pub mod Invariant
use funding_carry.Prelude.{
  ℕ, ◌+◌, List, [], ◌∷◌, Option, none, some, String, Bool, true, false, not, ◌&&◌, ◌||◌,
  if◌then◌else◌,
}
use funding_carry.Prelude.Text.{str_eq}
use funding_carry.Decimal.{Decimal}
use funding_carry.Clock.{is_zero_time, time_sub}
use funding_carry.Carry.{Leg, Order, Ack, ExecReport, pending, same_state}
use funding_carry.Exec.Status.{Status, terminal, Outcome, applied, duplicate}
use funding_carry.Exec.Transition.{transition}
use funding_carry.Exec.Metrics.{VenueMetrics}
use funding_carry.Exec.Metrics

-- `seen` is the set of the ExecIDs applied; `leg` is `none` where the source has the empty text.
pub record Tracked (D : Type 0) : Type 0 where
  pub status : Status D
  pub was_adopted : Bool
  pub seen : List String
  pub leg : Option Leg
  pub ack_timed_out : Bool

unfoldable pub has : List String → String → Bool
has [] x = false
has (y ∷ ys) x = str_eq y x || has ys x

module _ {D : Type 0} ⦃dec : Decimal D⦄ where
  -- The record that Track makes of a new order; the fields that it leaves out are Go's zeros.
  unfoldable pub submitted : ℕ → Order D → Ack → Tracked D
  submitted timeout o ack = record {
    status = record {
      cl_ord_id = o.cl_ord_id;
      venue_id = ack.venue_id;
      qty = o.qty;
      state = pending;
      cum_qty = dec.zero;
      leaves_qty = o.qty;
      avg_px = dec.zero;
      reason = "";
      was_adopted = false;
      submitted_at = ack.at;
      updated_at = ack.at;
      deadline = ack.at + timeout;
    };
    was_adopted = false;
    seen = [];
    leg = some o.leg;
    ack_timed_out = false;
  }

  -- What `complete` does to the order.
  unfoldable pub completed : ℕ → Tracked D → Order D → Ack → Tracked D
  completed timeout o order ack = record o {
    was_adopted = false;
    leg = some order.leg;
    status = record o.status {
      was_adopted = false;
      qty = order.qty;
      submitted_at = ack.at;
      deadline = ack.at + timeout;
      venue_id = if str_eq o.status.venue_id "" then ack.venue_id else o.status.venue_id;
      leaves_qty = if same_state o.status.state pending then order.qty else o.status.leaves_qty;
    };
  }

  -- `complete`, with the round trip that it may observe.
  unfoldable pub complete : ℕ → VenueMetrics → Tracked D → Order D → Ack → Tracked D × VenueMetrics
  unfolding completed terminal
  complete timeout m o order ack =
      let o' = completed timeout o order ack in
      (
        o',
        if terminal o'.status
            then Metrics.observe_roundtrip m (time_sub o'.status.updated_at o'.status.submitted_at)
            else m,
      )

  unfoldable pub adopt : ℕ → ExecReport D → Tracked D
  adopt timeout r = record {
    status = record {
      cl_ord_id = r.cl_ord_id;
      venue_id = "";
      qty = dec.zero;
      state = pending;
      cum_qty = dec.zero;
      leaves_qty = dec.zero;
      avg_px = dec.zero;
      reason = "";
      was_adopted = true;
      submitted_at = r.at;
      updated_at = r.at;
      deadline = r.at + timeout;
    };
    was_adopted = true;
    seen = [];
    leg = none;
    ack_timed_out = false;
  }

  unfoldable pub observe_timings :
      VenueMetrics → Tracked D → Bool → Status D → ExecReport D → VenueMetrics
  unfolding terminal
  observe_timings m o was_pending next r =
      if o.was_adopted
      then m
      else (let m' =
            if terminal next
            then Metrics.observe_roundtrip m (time_sub next.updated_at next.submitted_at)
            else m in
          if was_pending && not (same_state next.state pending) && not (is_zero_time r.received_at)
          then Metrics.observe_ack m' o.leg (time_sub r.received_at next.submitted_at)
          else m')

  -- The branch of `apply` for a report that the rule table applied.
  record_applied : VenueMetrics → Tracked D → ExecReport D → Status D → Tracked D × VenueMetrics
  unfolding observe_timings
  record_applied m o r next =
      let o' = record o {
        seen = if str_eq r.exec_id "" then o.seen else r.exec_id ∷ o.seen;
        status = next;
      } in
      (o', observe_timings m o' (same_state o.status.state pending) next r)

  apply_outcome :
      VenueMetrics
      → Tracked D
      → ExecReport D
      → Status D × Outcome
      → Tracked D × Outcome × VenueMetrics
  unfolding record_applied
  apply_outcome m o r (next, applied) =
      let (o', m') = record_applied m o r next in (o', applied, m')
  apply_outcome m o r (next, outcome) = (o, outcome, m)

  -- `Tracker.apply` on the order that the report describes.
  unfoldable pub apply_to :
      VenueMetrics → Tracked D → ExecReport D → Tracked D × Outcome × VenueMetrics
  unfolding apply_outcome has
  apply_to m o r =
      if not (str_eq r.exec_id "") && has o.seen r.exec_id
      then (o, duplicate, m)
      else apply_outcome m o r (transition o.status r)
