-- ===== src/Exec/Transition/Quantity.antt =====
-- The filled quantity under the rule table: it never falls, and never passes what was ordered,
-- but for what a NEW report says, which the table takes over unread.
use funding_carry.Prelude.{◌≡◌, ◌⊎◌, true, false, arith}
use funding_carry.Decimal.{Decimal, OrderLaws, less_than_or_equal, is_zero}
use funding_carry.Carry.{ExecReport, new, pending}
use funding_carry.Exec.Status.{Status, applied}
use funding_carry.Exec.Transition.{transition}

module _ {D : Type 0} ⦃dec : Decimal D⦄ where
  -- The filled quantity does not fall, on any branch, provided that a NEW which answers a pending
  -- order claims no less than the order has.
  pub transition-cum_le :
      OrderLaws dec
      → (cur : Status D) (r : ExecReport D)
      → (r.state ≡ new → cur.state ≡ pending → less_than_or_equal cur.cum_qty r.cum_qty ≡ true)
      → less_than_or_equal cur.cum_qty (transition cur r).0.cum_qty ≡ true
  unfolding transition
  transition-cum_le laws cur r acks =
      ground (arith, laws.cmp_refl cur.cum_qty, laws.cmp_flip cur.cum_qty r.cum_qty)

  -- Where the order's size is known, the filled quantity stays within it, provided that a NEW does
  -- not claim more.
  pub transition-within :
      (cur : Status D) (r : ExecReport D)
      → is_zero cur.qty ≡ false
      → (r.state ≡ new → less_than_or_equal r.cum_qty cur.qty ≡ true)
      → less_than_or_equal cur.cum_qty cur.qty ≡ true
      → less_than_or_equal (transition cur r).0.cum_qty cur.qty ≡ true
  unfolding transition
  transition-within cur r known acks within = ground arith

  -- The ordered quantity and the deadline are no report's to change.
  pub transition_keeps :
      (cur : Status D) (r : ExecReport D)
      → ((transition cur r).0.qty ≡ cur.qty)
        × ((transition cur r).0.cl_ord_id ≡ cur.cl_ord_id)
        × ((transition cur r).0.submitted_at ≡ cur.submitted_at)
        × ((transition cur r).0.deadline ≡ cur.deadline)
        × ((transition cur r).0.was_adopted ≡ cur.was_adopted)
  unfolding transition
  transition_keeps cur r = ground arith

  -- A report that is not applied changes nothing.
  pub transition_refused :
      (cur : Status D) (r : ExecReport D)
      → ((transition cur r).1 ≡ applied) ⊎ ((transition cur r).0 ≡ cur)
  unfolding transition
  transition_refused cur r = ground arith
