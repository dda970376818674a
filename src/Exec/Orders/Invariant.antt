-- ===== src/Exec/Orders/Invariant.antt =====
-- What holds of one tracked order between two operations of the tracker.
use funding_carry.Prelude.{◌≡◌, ◌≢◌, ◌+◌, ℕ, true, false, String, arith, ◌⊎◌}
use funding_carry.Decimal.{Decimal, OrderLaws, is_zero}
use funding_carry.Carry.{Order, Ack, ExecReport, ExecState, pending, other}
use funding_carry.Exec.Status.{Status, terminal, applied}
use funding_carry.Exec.Transition.{transition}
use funding_carry.Exec.Transition.Quantity.{transition_keeps}
use funding_carry.Exec.Metrics.{VenueMetrics}
use funding_carry.Exec.Orders.{Tracked, submitted, completed, adopt, apply_to}

-- No order is ever in a state outside the five and PENDING.
abbrev pub IsKnown : ExecState → Type 0
IsKnown (other s) = ⊥
IsKnown _ = Unit

module _ {D : Type 0} ⦃dec : Decimal D⦄ where
  -- Of the status alone: a pending order has nothing filled, an ended one nothing left, and the
  -- deadline is the timeout after the submission.
  pub record IsSound (timeout : ℕ) (s : Status D) : Type 0 where
    pub known : IsKnown s.state
    pub unfilled : s.state ≡ pending → s.cum_qty ≡ dec.zero
    pub closed : terminal s ≡ true → is_zero s.leaves_qty ≡ true
    pub due : s.deadline ≡ s.submitted_at + timeout

  -- The order is filed under its id, and one that no call of Track submitted is not pending.
  pub record IsFiled (timeout : ℕ) (id : String) (o : Tracked D) : Type 0 where
    pub sound : IsSound timeout o.status
    pub named : o.status.cl_ord_id ≡ id
    pub flagged : o.status.was_adopted ≡ o.was_adopted
    pub answered : o.status.state ≡ pending → o.was_adopted ≡ false

  pub transition-IsSound :
      OrderLaws dec
      → {timeout : ℕ} (cur : Status D) (r : ExecReport D) → IsSound timeout cur
      → IsSound timeout (transition cur r).0
  unfolding transition
  transition-IsSound laws cur r v = ground (arith, laws.cmp_refl dec.zero)

  pub submitted-IsFiled :
      (timeout : ℕ) (o : Order D) (ack : Ack)
      → IsFiled timeout o.cl_ord_id (submitted timeout o ack)
  unfolding submitted terminal
  submitted-IsFiled timeout o ack = ground arith

  -- Completing an adopted order.
  pub completed-IsFiled :
      (timeout : ℕ) (id : String) (o : Tracked D) (order : Order D) (ack : Ack)
      → IsFiled timeout id o
      → o.was_adopted ≡ true
      → IsFiled timeout id (completed timeout o order ack)
  unfolding completed terminal
  completed-IsFiled timeout id o order ack v a = ground arith

  -- `transition` leaves no order pending that it was applied to.
  pub transition_answers :
      (cur : Status D) (r : ExecReport D)
      → (transition cur r).1 ≡ applied
      → (transition cur r).0.state ≡ pending
      → ⊥
  unfolding transition
  transition_answers cur r h p = ground arith

  -- What a report does to an order: it is left as it was, or takes the status that the rule table
  -- applied, and nothing else that the invariant reads changes.
  pub apply_to_cases :
      (m : VenueMetrics) (o : Tracked D) (r : ExecReport D)
      → (((apply_to m o r).1 ≢ applied) × ((apply_to m o r).0 ≡ o))
        ⊎ (((apply_to m o r).1 ≡ applied)
            × ((transition o.status r).1 ≡ applied)
            × ((apply_to m o r).0.status ≡ (transition o.status r).0)
            × ((apply_to m o r).0.was_adopted ≡ o.was_adopted))
  unfolding apply_to
  apply_to_cases m o r = ground arith

  pub apply_to-IsFiled :
      OrderLaws dec
      → (timeout : ℕ) (id : String) (m : VenueMetrics) (o : Tracked D) (r : ExecReport D)
      → IsFiled timeout id o
      → IsFiled timeout id (apply_to m o r).0
  apply_to-IsFiled laws timeout id m o r v = ground (
    arith,
    apply_to_cases m o r,
    transition-IsSound laws {timeout = timeout} o.status r v.sound,
    transition_answers o.status r,
    transition_keeps o.status r,
  )

  -- An order that is adopted is filed once the report that it was adopted for is applied to it.
  pub adopt-IsFiled :
      OrderLaws dec
      → (timeout : ℕ) (m : VenueMetrics) (r : ExecReport D)
      → (apply_to m (adopt timeout r) r).1 ≡ applied
      → IsFiled timeout r.cl_ord_id (apply_to m (adopt timeout r) r).0
  unfolding adopt terminal
  adopt-IsFiled laws timeout m r h =
      let s = (adopt timeout r).status in
      ground (
        arith,
        apply_to_cases m (adopt timeout r) r,
        transition-IsSound laws {timeout = timeout} s r (ground arith),
        transition_answers s r,
        transition_keeps s r,
      )
