-- ===== src/Exec/Tracker/Query/Lateness.antt =====
-- What Overdue returns.
use funding_carry.Prelude.{
  ℕ, ◌+◌, ◌<◌, ◌≡◌, inl, inr, List, [], ◌∷◌, String, true, false, arith, Bool-cases, All,
}
use funding_carry.Prelude.Sort.{All-sort}
use funding_carry.Decimal.{Decimal}
use funding_carry.Clock.{Time}
use funding_carry.Carry.{pending}
use funding_carry.Exec.Status.{Status, overdue}
use funding_carry.Exec.Orders.{Tracked}
use funding_carry.Exec.Orders.Invariant.{IsFiled}
use funding_carry.Exec.Tracker.{Tracker}
use funding_carry.Exec.Tracker.Invariant.{IsConsistent}
use funding_carry.Exec.Tracker.Query.{earlier, kept, filter, overdue_orders}

module _ {D : Type 0} ⦃dec : Decimal D⦄ where
  -- An order that this process submitted, with no answer and nothing filled past its deadline.
  pub record IsUnanswered (timeout : ℕ) (now : Time) (s : Status D) : Type 0 where
    pub waiting : s.state ≡ pending
    pub submitted : s.was_adopted ≡ false
    pub unfilled : s.cum_qty ≡ dec.zero
    pub missed : s.submitted_at + timeout < now

  overdue-IsUnanswered :
      (timeout : ℕ) (now : Time) (id : String) (o : Tracked D)
      → IsFiled timeout id o
      → overdue o.status now ≡ true
      → IsUnanswered timeout now o.status
  unfolding overdue
  overdue-IsUnanswered timeout now id o v h =
      let s = v.sound in ground (arith, s.unfilled, s.due, v.answered, v.flagged)

  kept-IsUnanswered :
      (timeout : ℕ) (now : Time) (m : List (String × Tracked D))
      → All (λ e. IsFiled timeout e.0 e.1) m
      → All (IsUnanswered timeout now) (kept (λ s. overdue s now) m)
  unfolding kept
  kept-IsUnanswered timeout now [] h = tt
  kept-IsUnanswered timeout now ((id, o) ∷ m) h =
      let rest = kept-IsUnanswered timeout now m h.1 in
      elim (Bool-cases (overdue o.status now)) [
        | inl e ↦ rw e (overdue-IsUnanswered timeout now id o h.0 e, rest)
        | inr e ↦ rw e rest
      ]

  -- Every order that Overdue returns was submitted by this process, never adopted, is still
  -- unanswered with nothing filled, and was submitted longer ago than the timeout.
  pub overdue_orders-IsUnanswered :
      (t : Tracker D) (now : Time)
      → IsConsistent t
      → All (IsUnanswered t.timeout now) (overdue_orders t now)
  unfolding overdue_orders filter
  overdue_orders-IsUnanswered t now v =
      All-sort earlier _ _ (kept-IsUnanswered t.timeout now t.orders v.filed)
