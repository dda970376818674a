-- ===== src/Exec/Transition/Lifecycle.antt =====
-- The moves that the rule table makes, against the state diagram that the source states:
-- NEW, then PARTIAL any number of times, then FILLED, CANCELED or REJECTED.
use funding_carry.Prelude.{◌≡◌, true, false, arith, ◌⊎◌, inl, inr}
use funding_carry.Decimal.{Decimal}
use funding_carry.Carry.{
  ExecState, new, partial, filled, canceled, rejected, pending, other, ExecReport,
}
use funding_carry.Carry
use funding_carry.Exec.Status.{Status, applied}
use funding_carry.Exec.Transition.{transition}

-- The diagram: an arrow for each move that a report can make, out of a state that has not ended.
pub data Arrow : ExecState → ExecState → Type 0 where
  acknowledge : Arrow pending new
  progress : (s : ExecState) → Carry.terminal s ≡ false → Arrow s partial
  complete : (s : ExecState) → Carry.terminal s ≡ false → Arrow s filled
  cancel : (s : ExecState) → Carry.terminal s ≡ false → Arrow s canceled
  reject : (s : ExecState) → Carry.terminal s ≡ false → Arrow s rejected

-- A sequence of moves.
pub data Life (s : ExecState) : ExecState → Type 0 where
  start : Life s s
  move : {t u : ExecState} → Life s t → Arrow t u → Life s u

Arrow-ending : (s t : ExecState) → Carry.terminal s ≡ false → Carry.terminal t ≡ true → Arrow s t
unfolding Carry.terminal
Arrow-ending s filled live h = complete s live
Arrow-ending s canceled live h = cancel s live
Arrow-ending s rejected live h = reject s live
Arrow-ending s new live h = cc
Arrow-ending s partial live h = cc
Arrow-ending s pending live h = cc
Arrow-ending s (other t) live h = cc

module _ {D : Type 0} ⦃dec : Decimal D⦄ where
  -- What an applied report does to the state.
  transition_moves :
      (cur : Status D) (r : ExecReport D)
      → (transition cur r).1 ≡ applied
      → (Carry.terminal cur.state ≡ false)
        × ((transition cur r).0.state ≡ r.state)
        × (((cur.state ≡ pending) × (r.state ≡ new))
            ⊎ (r.state ≡ partial)
            ⊎ (Carry.terminal r.state ≡ true))
  unfolding transition
  transition_moves cur r h = ground arith

  -- A report that is applied moves the order along one arrow, to the state that it reports.
  pub transition-Arrow :
      (cur : Status D) (r : ExecReport D)
      → (transition cur r).1 ≡ applied
      → Arrow cur.state (transition cur r).0.state
  transition-Arrow cur r h =
      let m = transition_moves cur r h in
      rw m.1 (elim m.2 [
        | inl (p, n) ↦ rw (p, n) acknowledge
        | inr (inl p) ↦ rw p (progress cur.state m.0)
        | inr (inr e) ↦ Arrow-ending cur.state r.state m.0 e
      ])

  -- An order that has ended keeps its status, whatever is reported.
  pub transition_ended :
      (cur : Status D) (r : ExecReport D)
      → Carry.terminal cur.state ≡ true
      → (transition cur r).0 ≡ cur
  unfolding transition
  transition_ended cur r h = ground arith
