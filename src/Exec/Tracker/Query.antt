-- ===== src/Exec/Tracker/Query.antt =====
-- internal/exec/statemachine.go: Tracker.Status, Open, Overdue and the `filter` behind the two. A
-- map's order is open in Go, so what they return must not depend on it.
use funding_carry.Prelude.{
  ◌≡◌, refl, ap, ◌∙◌, ◌⊎◌, inl, inr, List, [], ◌∷◌, Option, none, some, String, Bool, true, false,
  not, ◌==◌, if◌then◌else◌, ltb, arith, Bool-cases,
}
use funding_carry.Prelude.Text.{str_lt}
use funding_carry.Prelude.Text.Order.{str_lt_asymm, str_lt_trans, str_lt_not_trans, eq_of_not_lt}
use funding_carry.Prelude.Sort.{sort, IsStrictWeak}
use funding_carry.Clock.{Time, before}
use funding_carry.Dict.{lookup, values}
use funding_carry.Exec.Status.{Status, terminal, overdue}
use funding_carry.Exec.Orders.{Tracked}
use funding_carry.Exec.Tracker.{Tracker}
pub mod Arrangement
pub mod Lateness

module _ {D : Type 0} where
  unfoldable pub status_of : Tracker D → String → Option (Status D)
  status_of t id = elim (lookup id t.orders) [ none ↦ none | some o ↦ some o.status ]

  -- The comparison that `filter` hands to sort.Slice: oldest first, and by id at one instant.
  unfoldable pub earlier : Status D → Status D → Bool
  earlier a b =
      if not (a.submitted_at == b.submitted_at)
      then before a.submitted_at b.submitted_at
      else str_lt a.cl_ord_id b.cl_ord_id

  -- The loop of `filter`.
  unfoldable pub kept : (Status D → Bool) → List (String × Tracked D) → List (Status D)
  kept keep [] = []
  kept keep ((_, o) ∷ rest) =
      let out = kept keep rest in if keep o.status then o.status ∷ out else out

  unfoldable pub filter : Tracker D → (Status D → Bool) → List (Status D)
  filter t keep = sort earlier (kept keep t.orders)

  unfoldable pub open_orders : Tracker D → List (Status D)
  open_orders t = filter t (λ s. not (terminal s))

  unfoldable pub overdue_orders : Tracker D → Time → List (Status D)
  overdue_orders t now = filter t (λ s. overdue s now)
