-- ===== src/Exec/Tracker/Progress.antt =====
-- The direction of an order's life in the tracker, over any history: states move along the diagram,
-- the filled quantity does not fall, and an ended order keeps what it ended with.
use funding_carry.Prelude.{ℕ, ◌≡◌, refl, List, some, String, true, arith, inl, inr}
use funding_carry.Decimal.{Decimal}
use funding_carry.Dict.{lookup}
use funding_carry.Carry.{Order, Ack, ExecReport, ExecState}
use funding_carry.Exec.Status.{terminal}
use funding_carry.Exec.Transition.Lifecycle.{Life, start, move, transition-Arrow, transition_ended}
use funding_carry.Exec.Metrics.{VenueMetrics}
use funding_carry.Exec.Orders.{Tracked, complete, apply_to}
use funding_carry.Exec.Orders.Invariant.{apply_to_cases}
use funding_carry.Exec.Tracker.Invariant.{observe_order_keeps}
use funding_carry.Exec.Tracker.{Tracker}
use funding_carry.Exec.Tracker.History.{Op, run}
use funding_carry.Exec.Tracker.Follow.{IsKept, AnyReport, any_FineOp, Later, run_Later}

Life-append : {s t u : ExecState} → Life s t → Life t u → Life s u
Life-append p start = p
Life-append p (move q a) = move (Life-append p q) a

module _ {D : Type 0} ⦃dec : Decimal D⦄ where
  abbrev Lives : Tracked D → Tracked D → Type 0
  Lives x y = Life x.status.state y.status.state

  apply_to-Lives :
      (m : VenueMetrics) (x : Tracked D) (r : ExecReport D) → Lives x (apply_to m x r).0
  apply_to-Lives m x r = elim (apply_to_cases m x r) [
    | inl (n, e) ↦ rw e start
    | inr (a, b, c, d) ↦ rw c (move start (transition-Arrow x.status r b))
  ]

  Lives-IsKept : IsKept AnyReport Lives
  unfolding complete
  Lives-IsKept = record {
    same = λ x. start;
    chained = λ x y z p q. Life-append p q;
    completing = λ timeout m x o ack a. start;
    applying = λ m x r f. apply_to-Lives m x r;
    observing = λ now m x. rw (observe_order_keeps now m x).0 start;
  }

  -- Over any history an order stays known, and its state moves only along the arrows of the
  -- diagram: NEW from PENDING, PARTIAL, FILLED, CANCELED and REJECTED from a state that has not
  -- ended, and nothing from one that has.
  pub run-Life :
      (t : Tracker D) (ops : List (Op D)) (id : String) (x : Tracked D)
      → lookup id t.orders ≡ some x
      → Later Lives (run t ops) id x
  run-Life t ops id x e = run_Later AnyReport Lives Lives-IsKept t ops id x (any_FineOp ops) e

  -- An ended order keeps what it ended with.
  abbrev Rests : Tracked D → Tracked D → Type 0
  Rests x y =
      terminal x.status ≡ true
      → (y.status.state ≡ x.status.state)
        × (y.status.cum_qty ≡ x.status.cum_qty)
        × (y.status.leaves_qty ≡ x.status.leaves_qty)
        × (y.status.avg_px ≡ x.status.avg_px)
        × (y.status.updated_at ≡ x.status.updated_at)
        × (y.status.reason ≡ x.status.reason)

  apply_to-Rests :
      (m : VenueMetrics) (x : Tracked D) (r : ExecReport D) → Rests x (apply_to m x r).0
  unfolding terminal
  apply_to-Rests m x r h = ground (arith, apply_to_cases m x r, transition_ended x.status r)

  complete-Rests :
      (timeout : ℕ) (m : VenueMetrics) (x : Tracked D) (o : Order D) (ack : Ack)
      → Rests x (complete timeout m x o ack).0
  unfolding complete
  complete-Rests timeout m x o ack h = ground arith

  Rests-chained : (x y z : Tracked D) → Rests x y → Rests y z → Rests x z
  unfolding terminal
  Rests-chained x y z f g h = ground (arith, f h, g)

  Rests-IsKept : IsKept AnyReport Rests
  Rests-IsKept = record {
    same = λ x h. (refl, refl, refl, refl, refl, refl);
    chained = Rests-chained;
    completing = λ timeout m x o ack a. complete-Rests timeout m x o ack;
    applying = λ m x r f. apply_to-Rests m x r;
    observing = λ now m x h. ground (arith, observe_order_keeps now m x);
  }

  -- Nothing follows FILLED, CANCELED or REJECTED: over any history an ended order keeps its state,
  -- its quantities, its price, its reason and the time of its last report.
  pub run-Rests :
      (t : Tracker D) (ops : List (Op D)) (id : String) (x : Tracked D)
      → lookup id t.orders ≡ some x
      → terminal x.status ≡ true
      → (y : Tracked D) × (lookup id (run t ops).orders ≡ some y)
        × (y.status.state ≡ x.status.state)
        × (y.status.cum_qty ≡ x.status.cum_qty)
        × (y.status.leaves_qty ≡ x.status.leaves_qty)
        × (y.status.avg_px ≡ x.status.avg_px)
        × (y.status.updated_at ≡ x.status.updated_at)
        × (y.status.reason ≡ x.status.reason)
  run-Rests t ops id x e h =
      let (y, e', k) = run_Later AnyReport Rests Rests-IsKept t ops id x (any_FineOp ops) e in
      let (a, b, c, d, u, v) = k h in (y, e', a, b, c, d, u, v)
