-- ===== src/Exec/Transition.antt =====
-- internal/exec/statemachine.go, `transition` and what it calls: the rule table, a pure function of
-- an order and a report.
pub mod Quantity
pub mod Lifecycle
pub mod Replay
use funding_carry.Prelude.{◌≡◌, Bool, true, false, not, ◌&&◌, Ordering, String, if◌then◌else◌}
use funding_carry.Prelude.Text.{str_eq}
use funding_carry.Decimal.{Decimal, equal, less_than, greater_than, is_zero}
use funding_carry.Carry.{
  ExecState, new, partial, filled, canceled, rejected, pending, other, same_state, ExecReport,
}
use funding_carry.Exec.Status.{Status, terminal, Outcome, applied, duplicate, stale, late, invalid}

module _ {D : Type 0} ⦃dec : Decimal D⦄ where
  unfoldable pub progressed : Status D → ExecReport D → Status D
  progressed cur r = record cur {
    state = r.state;
    cum_qty = r.cum_qty;
    leaves_qty = r.leaves_qty;
    avg_px = r.avg_px;
    updated_at = r.at;
    venue_id = if str_eq r.venue_id "" then cur.venue_id else r.venue_id;
  }

  unfoldable pub ended : Status D → ExecReport D → Status D
  unfolding progressed
  ended cur r = record (progressed cur r) { leaves_qty = dec.zero; reason = r.reason }

  -- The report claims more than was ordered; of an adopted order the size is unknown, and zero.
  abbrev pub overfills : Status D → ExecReport D → Bool
  overfills cur r = not (is_zero cur.qty) && greater_than r.cum_qty cur.qty

  unfoldable pub closed_out : Status D → ExecReport D → Status D × Outcome
  unfolding ended
  closed_out cur r =
      if less_than r.cum_qty cur.cum_qty
      then (cur, invalid)
      else if overfills cur r
      then (cur, invalid)
      else (ended cur r, applied)

  acknowledged_in : ExecState → Status D → ExecReport D → Status D × Outcome
  unfolding progressed
  acknowledged_in pending cur r = (progressed cur r, applied)
  acknowledged_in new cur r = (cur, duplicate)
  acknowledged_in _ cur r = (cur, stale)

  unfoldable pub acknowledged : Status D → ExecReport D → Status D × Outcome
  unfolding acknowledged_in
  acknowledged cur r = acknowledged_in cur.state cur r

  -- The guards that follow the comparison of the quantities.
  fill_ahead : Status D → ExecReport D → Status D × Outcome
  unfolding progressed
  fill_ahead cur r =
      if overfills cur r
      then (cur, invalid)
      else if same_state r.state filled && not (is_zero r.leaves_qty)
      then (cur, invalid)
      else (progressed cur r, applied)

  unfoldable pub fill : Status D → ExecReport D → Status D × Outcome
  unfolding fill_ahead
  fill cur r = elim (dec.cmp r.cum_qty cur.cum_qty) [
    | Ordering.lt ↦ (cur, stale)
    | Ordering.eq ↦
        if same_state r.state cur.state
        then (cur, duplicate)
        else if same_state r.state partial
        then (cur, invalid)
        else fill_ahead cur r
    | Ordering.gt ↦ fill_ahead cur r
  ]

  -- The `switch` on the report's state.
  dispatch : ExecState → Status D → ExecReport D → Status D × Outcome
  unfolding closed_out acknowledged fill
  dispatch rejected cur r = closed_out cur r
  dispatch canceled cur r = closed_out cur r
  dispatch new cur r = acknowledged cur r
  dispatch partial cur r = fill cur r
  dispatch filled cur r = fill cur r
  dispatch pending cur r = (cur, invalid)
  dispatch (other s) cur r = (cur, invalid)

  unfoldable pub transition : Status D → ExecReport D → Status D × Outcome
  unfolding terminal dispatch
  transition cur r =
      if terminal cur
      then (
        cur,
        if same_state r.state cur.state && equal r.cum_qty cur.cum_qty then duplicate else late,
      )
      else dispatch r.state cur r
