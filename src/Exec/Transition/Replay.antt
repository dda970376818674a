-- ===== src/Exec/Transition/Replay.antt =====
-- A report that comes twice.
use funding_carry.Prelude.{◌≡◌, arith}
use funding_carry.Decimal.{Decimal, OrderLaws}
use funding_carry.Carry.{ExecReport}
use funding_carry.Exec.Status.{Status, applied, duplicate}
use funding_carry.Exec.Transition.{transition}

module _ {D : Type 0} ⦃dec : Decimal D⦄ (laws : OrderLaws dec) where
  -- Even with no ExecID to go by, a report that was applied is a duplicate when it comes again at
  -- once.
  pub transition_twice :
      (cur : Status D) (r : ExecReport D)
      → (transition cur r).1 ≡ applied
      → transition (transition cur r).0 r ≡ ((transition cur r).0, duplicate)
  unfolding transition
  transition_twice cur r h = ground (arith, laws.cmp_refl r.cum_qty)
