-- ===== src/Exec/Tracker/History.antt =====
-- Sequences of the tracker's operations. Its mutex makes each operation one step, so any
-- interleaving of the router's calls and the venue's reports is such a sequence.
use funding_carry.Prelude.{List, [], ◌∷◌, ℕ}
use funding_carry.Decimal.{Decimal, OrderLaws}
use funding_carry.Clock.{Time}
use funding_carry.Carry.{Order, Ack, ExecReport}
use funding_carry.Exec.Tracker.{Tracker, new_tracker, track, apply, observe}
use funding_carry.Exec.Tracker.Invariant.{
  IsConsistent, new-IsConsistent, track-IsConsistent, apply-IsConsistent, observe-IsConsistent,
}

pub data Op (D : Type 0) : Type 0 where
  tracks : Order D → Ack → Op D
  applies : ExecReport D → Op D
  observes : Time → Op D

module _ {D : Type 0} ⦃dec : Decimal D⦄ where
  unfoldable pub step : Tracker D → Op D → Tracker D
  step t (tracks o ack) = (track t o ack).0
  step t (applies r) = (apply t r).0
  step t (observes now) = observe t now

  unfoldable pub run : Tracker D → List (Op D) → Tracker D
  run t [] = t
  run t (op ∷ ops) = run (step t op) ops

  pub step-IsConsistent :
      OrderLaws dec → (t : Tracker D) (op : Op D) → IsConsistent t → IsConsistent (step t op)
  unfolding step
  step-IsConsistent laws t (tracks o ack) v = track-IsConsistent t o ack v
  step-IsConsistent laws t (applies r) v = apply-IsConsistent laws t r v
  step-IsConsistent laws t (observes now) v = observe-IsConsistent t now v

  pub run-IsConsistent :
      OrderLaws dec
      → (t : Tracker D) (ops : List (Op D)) → IsConsistent t
      → IsConsistent (run t ops)
  unfolding run
  run-IsConsistent laws t [] v = v
  run-IsConsistent laws t (op ∷ ops) v =
      run-IsConsistent laws (step t op) ops (step-IsConsistent laws t op v)

  -- After any history of a new tracker every order is filed under its id, in one of the five
  -- states or PENDING, with its deadline the timeout after its submission; an adopted order is
  -- never pending, a pending one has nothing filled, an ended one nothing left to fill; and the
  -- gauge of open orders is the number of orders that have not ended.
  pub new_tracker-run-IsConsistent :
      OrderLaws dec
      → (timeout : ℕ) (ops : List (Op D)) → IsConsistent (run (new_tracker timeout) ops)
  new_tracker-run-IsConsistent laws timeout ops =
      run-IsConsistent laws (new_tracker timeout) ops (new-IsConsistent timeout)
