-- ===== src/Exec/Status.antt =====
-- internal/exec/statemachine.go: what the tracker says of a report, and an order as it knows it.
use funding_carry.Prelude.{Bool, ◌&&◌, String}
use funding_carry.Clock.{Time, after}
use funding_carry.Carry.{ExecState, pending, same_state}
use funding_carry.Carry

pub data Outcome : Type 0 where
  applied adopted duplicate stale late invalid : Outcome

pub record Status (D : Type 0) : Type 0 where
  pub cl_ord_id : String
  pub venue_id : String
  pub qty : D
  pub state : ExecState
  pub cum_qty : D
  pub leaves_qty : D
  pub avg_px : D
  pub reason : String
  pub was_adopted : Bool
  pub submitted_at : Time
  pub updated_at : Time
  pub deadline : Time

module _ {D : Type 0} where
  unfoldable pub terminal : Status D → Bool
  unfolding Carry.terminal
  terminal s = Carry.terminal s.state

  unfoldable pub overdue : Status D → Time → Bool
  overdue s now = same_state s.state pending && after now s.deadline
