-- ===== src/Exec/Tracker/Timeouts.antt =====
-- The counter of missed acknowledgements: one for each order, however often Observe looks.
use funding_carry.Prelude.{
  ℕ, suc, ◌+◌, ◌≡◌, refl, ◌∙◌, sym, List, [], ◌∷◌, Option, none, some, String, false, arith, length,
  if◌then◌else◌,
}
use funding_carry.Decimal.{Decimal}
use funding_carry.Clock.{Time}
use funding_carry.Dict.{lookup, insert}
use funding_carry.Dict.Laws.{delete-insert, insert-insert}
use funding_carry.Carry.{Order, Ack, ExecReport}
use funding_carry.Exec.Status.{Outcome, applied}
use funding_carry.Exec.Metrics.{VenueMetrics}
use funding_carry.Exec.Orders.{Tracked, submitted, complete, adopt, apply_to}
use funding_carry.Exec.Tracker.{
  Tracker, new_tracker, adopted_orders, track_found, apply_found, track, apply, settle,
  observe_order, observe_orders, observe,
}
use funding_carry.Exec.Tracker.History.{Op, tracks, applies, observes, step, run}

module _ {D : Type 0} where
  -- The orders that are marked as having missed their deadline.
  pub count_missed : List (String × Tracked D) → ℕ
  count_missed [] = 0
  count_missed ((_, o) ∷ rest) = let n = count_missed rest in if o.ack_timed_out then suc n else n

  abbrev IsCounted : Tracker D → Type 0
  IsCounted t = length t.metrics.ack_timeouts ≡ count_missed t.orders

  count_missed-insert :
      (id : String) (o o' : Tracked D) (m : List (String × Tracked D))
      → lookup id m ≡ some o
      → o'.ack_timed_out ≡ o.ack_timed_out
      → count_missed (insert id o' m) ≡ count_missed m
  unfolding count_missed insert lookup
  count_missed-insert id o o' [] e h = cc
  count_missed-insert id o o' ((j, p) ∷ m) e h = ground (arith, count_missed-insert id o o' m)

  count_missed-insert_new :
      (id : String) (o : Tracked D) (m : List (String × Tracked D))
      → lookup id m ≡ none
      → o.ack_timed_out ≡ false
      → count_missed (insert id o m) ≡ count_missed m
  unfolding count_missed insert lookup
  count_missed-insert_new id o [] e h = ground arith
  count_missed-insert_new id o ((j, p) ∷ m) e h = ground (arith, count_missed-insert_new id o m)

module _ {D : Type 0} ⦃dec : Decimal D⦄ where
  apply_to_counts :
      (m : VenueMetrics) (x : Tracked D) (r : ExecReport D)
      → ((apply_to m x r).0.ack_timed_out ≡ x.ack_timed_out)
        × ((apply_to m x r).2.ack_timeouts ≡ m.ack_timeouts)
  unfolding apply_to
  apply_to_counts m x r = ground arith

  track_found-IsCounted :
      (t : Tracker D) (o : Order D) (ack : Ack) (y : Option (Tracked D))
      → lookup o.cl_ord_id t.orders ≡ y
      → IsCounted t
      → IsCounted (track_found t o ack y).0
  unfolding track_found submitted complete
  track_found-IsCounted t o ack none e c =
      c ∙ sym (count_missed-insert_new o.cl_ord_id _ t.orders e refl)
  track_found-IsCounted t o ack (some x) e c =
      ground (
        arith,
        count_missed-insert o.cl_ord_id x (complete t.timeout t.metrics x o ack).0 t.orders e,
      )

  adopted_orders_count :
      (orders : List (String × Tracked D)) (id : String) (a b : Tracked D) (outcome : Outcome)
      → lookup id orders ≡ none
      → b.ack_timed_out ≡ false
      → count_missed (adopted_orders (insert id a orders) id b outcome).0 ≡ count_missed orders
  unfolding adopted_orders
  adopted_orders_count orders id a b applied e h =
      rw insert-insert (count_missed-insert_new id b orders e h)
  adopted_orders_count orders id a b _ e h = rw (delete-insert id a orders e)

  apply_found-IsCounted :
      (t : Tracker D) (r : ExecReport D) (y : Option (Tracked D))
      → lookup r.cl_ord_id t.orders ≡ y
      → IsCounted t
      → IsCounted (apply_found t r y).0
  unfolding apply_found settle adopt
  apply_found-IsCounted t r none e c =
      let o = adopt t.timeout r in
      let (a, b) = apply_to_counts t.metrics o r in
      rw b (c ∙ sym (adopted_orders_count t.orders r.cl_ord_id o _ _ e a))
  apply_found-IsCounted t r (some x) e c =
      let (a, b) = apply_to_counts t.metrics x r in
      rw b (c ∙ sym (count_missed-insert r.cl_ord_id x _ t.orders e a))

  observe_orders_count :
      (now : Time) (m : VenueMetrics) (orders : List (String × Tracked D))
      → length (observe_orders now m orders).3.ack_timeouts + count_missed orders
        ≡ length m.ack_timeouts + count_missed (observe_orders now m orders).0
  unfolding observe_orders observe_order count_missed
  observe_orders_count now m [] = refl
  observe_orders_count now m ((id, o) ∷ rest) =
      ground (arith, observe_orders_count now (observe_order now m o).1 rest)

  step-IsCounted : (t : Tracker D) (op : Op D) → IsCounted t → IsCounted (step t op)
  unfolding step track apply observe
  step-IsCounted t (tracks o ack) c = track_found-IsCounted t o ack _ refl c
  step-IsCounted t (applies r) c = apply_found-IsCounted t r _ refl c
  step-IsCounted t (observes now) c = omega (arith, observe_orders_count now t.metrics t.orders)

  run-IsCounted : (t : Tracker D) (ops : List (Op D)) → IsCounted t → IsCounted (run t ops)
  unfolding run
  run-IsCounted t [] c = c
  run-IsCounted t (op ∷ ops) c = run-IsCounted (step t op) ops (step-IsCounted t op c)

  -- After any history of a new tracker the counter of missed acknowledgements is the number of
  -- orders that are marked as having missed theirs: no order is counted twice, and none that is
  -- marked is left out.
  pub new_tracker-run-ack_timeouts :
      (timeout : ℕ) (ops : List (Op D))
      → length (run (new_tracker timeout) ops).metrics.ack_timeouts
        ≡ count_missed (run (new_tracker timeout) ops).orders
  unfolding new_tracker count_missed
  new_tracker-run-ack_timeouts timeout ops = run-IsCounted (new_tracker timeout) ops refl
