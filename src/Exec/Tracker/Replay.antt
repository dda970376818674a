-- ===== src/Exec/Tracker/Replay.antt =====
-- Replayed reports: what a resend after a reconnect brings again.
use funding_carry.Prelude.{
  ◌≡◌, refl, ◌≢◌, List, Option, none, some, String, true, false, arith, ◌⊎◌,
}
use funding_carry.Prelude.Text.{str_eq, eq_refl}
use funding_carry.Decimal.{Decimal}
use funding_carry.Dict.{lookup, insert}
use funding_carry.Dict.Laws.{lookup-insert_self, insert-lookup}
use funding_carry.Carry.{ExecReport}
use funding_carry.Exec.Status.{Outcome, applied, adopted, duplicate}
use funding_carry.Exec.Transition.{transition}
use funding_carry.Exec.Metrics.{VenueMetrics}
use funding_carry.Exec.Orders.{Tracked, has, complete, adopt, apply_to}
use funding_carry.Exec.Tracker.{Tracker, adopted_orders, apply_found, apply, settle, observe_order}
use funding_carry.Exec.Tracker.History.{Op, run}
use funding_carry.Exec.Tracker.Follow.{IsKept, AnyReport, any_FineOp, run_Later}

-- The report moved its order.
abbrev pub IsTaken : Outcome → Type 0
IsTaken o = (o ≡ applied) ⊎ (o ≡ adopted)

module _ {D : Type 0} ⦃dec : Decimal D⦄ where
  -- What has been seen stays seen.
  abbrev Remembers : Tracked D → Tracked D → Type 0
  Remembers x y = (e : String) → has x.seen e ≡ true → has y.seen e ≡ true

  apply_to-Remembers :
      (m : VenueMetrics) (x : Tracked D) (r : ExecReport D) → Remembers x (apply_to m x r).0
  unfolding apply_to has
  apply_to-Remembers m x r e h = ground arith

  Remembers-IsKept : IsKept AnyReport Remembers
  unfolding complete observe_order
  Remembers-IsKept = record {
    same = λ x e h. h;
    chained = λ x y z f g e h. g e (f e h);
    completing = λ timeout m x o ack a e h. h;
    applying = λ m x r f. apply_to-Remembers m x r;
    observing = λ now m x e h. ground arith;
  }

  -- A report that is applied leaves its ExecID with the order.
  apply_to_seen :
      (m : VenueMetrics) (x : Tracked D) (r : ExecReport D)
      → str_eq r.exec_id "" ≡ false
      → (apply_to m x r).1 ≡ applied
      → has (apply_to m x r).0.seen r.exec_id ≡ true
  unfolding apply_to has
  apply_to_seen m x r named h = ground (arith, eq_refl r.exec_id)

  apply_to_again :
      (m : VenueMetrics) (x : Tracked D) (r : ExecReport D)
      → str_eq r.exec_id "" ≡ false
      → has x.seen r.exec_id ≡ true
      → apply_to m x r ≡ (x, duplicate, m)
  unfolding apply_to
  apply_to_again m x r named h = ground arith

  -- The order of a report is there, and has seen its ExecID.
  abbrev Seen : Tracker D → ExecReport D → Type 0
  Seen t r =
      (x : Tracked D) × (lookup r.cl_ord_id t.orders ≡ some x) × (has x.seen r.exec_id ≡ true)

  adopted_orders_taken :
      (orders : List (String × Tracked D)) (id : String) (o : Tracked D) (outcome : Outcome)
      → IsTaken (adopted_orders orders id o outcome).1
      → outcome ≢ adopted
      → (outcome ≡ applied) × (lookup id (adopted_orders orders id o outcome).0 ≡ some o)
  unfolding adopted_orders
  adopted_orders_taken orders id o applied h n = (refl, lookup-insert_self id o orders)
  adopted_orders_taken orders id o _ h n = ground arith

  apply_to_not_adopted :
      (m : VenueMetrics) (x : Tracked D) (r : ExecReport D) → (apply_to m x r).1 ≢ adopted
  unfolding apply_to transition
  apply_to_not_adopted m x r h = ground arith

  apply_found-Seen :
      (t : Tracker D) (r : ExecReport D) (y : Option (Tracked D))
      → str_eq r.exec_id "" ≡ false
      → IsTaken (apply_found t r y).2
      → Seen (apply_found t r y).0 r
  unfolding apply_found
  apply_found-Seen t r none named h =
      let o = adopt t.timeout r in
      let (a, e) =
        adopted_orders_taken (insert r.cl_ord_id o t.orders) r.cl_ord_id _ _ h
          (apply_to_not_adopted t.metrics o r) in
      (_, e, apply_to_seen t.metrics o r named a)
  apply_found-Seen t r (some x) named h = (
    _,
    lookup-insert_self r.cl_ord_id _ t.orders,
    apply_to_seen t.metrics x r named (ground (arith, apply_to_not_adopted t.metrics x r)),
  )

  apply-Seen :
      (t : Tracker D) (r : ExecReport D)
      → str_eq r.exec_id "" ≡ false
      → IsTaken (apply t r).2
      → Seen (apply t r).0 r
  unfolding apply
  apply-Seen t r named h = apply_found-Seen t r (lookup r.cl_ord_id t.orders) named h

  Seen-apply :
      (t : Tracker D) (r : ExecReport D)
      → str_eq r.exec_id "" ≡ false
      → Seen t r
      → ((apply t r).2 ≡ duplicate) × ((apply t r).0.orders ≡ t.orders)
  unfolding apply apply_found settle
  Seen-apply t r named (x, e, s) =
      ground (arith, apply_to_again t.metrics x r named s, insert-lookup r.cl_ord_id x t.orders e)

  -- A report with an ExecID that was taken once is recognised whenever it comes again, whatever
  -- happened to the tracker in between: the answer is `duplicate`, and no order changes.
  pub apply-run-duplicate :
      (t : Tracker D) (r : ExecReport D) (ops : List (Op D))
      → str_eq r.exec_id "" ≡ false
      → IsTaken (apply t r).2
      → ((apply (run (apply t r).0 ops) r).2 ≡ duplicate)
        × ((apply (run (apply t r).0 ops) r).0.orders ≡ (run (apply t r).0 ops).orders)
  apply-run-duplicate t r ops named h =
      let (x, e, s) = apply-Seen t r named h in
      let (y, e', k) =
        run_Later AnyReport Remembers Remembers-IsKept (apply t r).0 ops r.cl_ord_id x
          (any_FineOp ops) e in
      Seen-apply (run (apply t r).0 ops) r named (y, e', k r.exec_id s)
