-- ===== src/Exec/Tracker/Invariant.antt =====
-- The tracker's invariant, kept by every operation: see `IsConsistent`.
use funding_carry.Prelude.{
  ◌≡◌, refl, sym, ◌∙◌, ℕ, List, [], ◌∷◌, none, some, String, true, arith, inl, inr, Bool-cases,
  Option-cases,
}
use funding_carry.Decimal.{Decimal, OrderLaws}
use funding_carry.Clock.{Time}
use funding_carry.Dict.{lookup, insert}
use funding_carry.Dict.Laws.{
  AllEntries, AllEntries-insert, AllEntries-lookup, delete-insert, insert-insert,
}
use funding_carry.Carry.{Order, Ack, ExecReport}
use funding_carry.Exec.Status.{terminal, Outcome, applied}
use funding_carry.Exec.Metrics.{VenueMetrics}
use funding_carry.Exec.Orders.{Tracked, complete, adopt, apply_to}
use funding_carry.Exec.Orders.Invariant.{
  IsFiled, submitted-IsFiled, completed-IsFiled, apply_to-IsFiled, adopt-IsFiled,
}
use funding_carry.Exec.Tracker.{
  Tracker, new_tracker, observe_order, count_open, adopted_orders, track, apply, observe,
  observe_orders,
}

module _ {D : Type 0} ⦃dec : Decimal D⦄ where
  -- Every order is filed under its id, adopted ones are answered, and the gauge of open orders
  -- shows how many there are.
  pub record IsConsistent (t : Tracker D) : Type 0 where
    pub filed : AllEntries (IsFiled t.timeout) t.orders
    pub gauge : t.metrics.open_orders ≡ count_open t.orders

  pub new-IsConsistent : (timeout : ℕ) → IsConsistent (new_tracker {D = D} timeout)
  unfolding new_tracker count_open
  new-IsConsistent timeout = record { filed = tt; gauge = refl }

  count_open-insert :
      (id : String) (o o' : Tracked D) (m : List (String × Tracked D))
      → lookup id m ≡ some o
      → terminal o'.status ≡ terminal o.status
      → count_open (insert id o' m) ≡ count_open m
  unfolding count_open insert lookup
  count_open-insert id o o' [] e h = cc
  count_open-insert id o o' ((j, p) ∷ m) e h = ground (arith, count_open-insert id o o' m)

  complete-IsFiled :
      (timeout : ℕ) (m : VenueMetrics) (id : String) (o : Tracked D) (order : Order D) (ack : Ack)
      → IsFiled timeout id o
      → o.was_adopted ≡ true
      → IsFiled timeout id (complete timeout m o order ack).0
  unfolding complete
  complete-IsFiled timeout m id o order ack v a = completed-IsFiled timeout id o order ack v a

  complete_keeps :
      (timeout : ℕ) (m : VenueMetrics) (o : Tracked D) (order : Order D) (ack : Ack)
      → ((complete timeout m o order ack).1.open_orders ≡ m.open_orders)
        × (terminal (complete timeout m o order ack).0.status ≡ terminal o.status)
  unfolding complete
  complete_keeps timeout m o order ack = ground arith

  track_fresh :
      (t : Tracker D) (o : Order D) (ack : Ack)
      → lookup o.cl_ord_id t.orders ≡ none
      → IsConsistent t
      → IsConsistent (track t o ack).0
  unfolding track
  track_fresh t o ack e v =
      rw (e, track)
        (record {
          filed =
              AllEntries-insert (IsFiled t.timeout) o.cl_ord_id _ t.orders
                (submitted-IsFiled t.timeout o ack) v.filed;
          gauge = refl;
        })

  track_known :
      (t : Tracker D) (o : Order D) (ack : Ack) (x : Tracked D)
      → lookup o.cl_ord_id t.orders ≡ some x
      → IsConsistent t
      → IsConsistent (track t o ack).0
  unfolding track
  track_known t o ack x e v =
      let k = AllEntries-lookup (IsFiled t.timeout) o.cl_ord_id x t.orders e v.filed in
      let c = complete_keeps t.timeout t.metrics x o ack in
      rw (e, track)
        (elim (Bool-cases x.was_adopted) [
          | inl a ↦ simp a (record {
            filed =
                AllEntries-insert (IsFiled t.timeout) o.cl_ord_id _ t.orders
                  (complete-IsFiled t.timeout t.metrics o.cl_ord_id x o ack k a) v.filed;
            gauge = c.0 ∙ v.gauge ∙ sym (count_open-insert o.cl_ord_id x _ t.orders e c.1);
          })
          | inr a ↦ simp a v
        ])

  -- Track keeps the invariant, whether the order is new, adopted before, or refused.
  pub track-IsConsistent :
      (t : Tracker D) (o : Order D) (ack : Ack) → IsConsistent t → IsConsistent (track t o ack).0
  track-IsConsistent t o ack v = elim (Option-cases (lookup o.cl_ord_id t.orders)) [
    | inl e ↦ track_fresh t o ack e v
    | inr (x, e) ↦ track_known t o ack x e v
  ]

  apply_known :
      OrderLaws dec
      → (t : Tracker D) (r : ExecReport D) (x : Tracked D) → lookup r.cl_ord_id t.orders ≡ some x
      → IsConsistent t
      → IsConsistent (apply t r).0
  unfolding apply
  apply_known laws t r x e v =
      let k = AllEntries-lookup (IsFiled t.timeout) r.cl_ord_id x t.orders e v.filed in
      rw (e, apply)
        (record {
          filed =
              AllEntries-insert (IsFiled t.timeout) r.cl_ord_id _ t.orders
                (apply_to-IsFiled laws t.timeout r.cl_ord_id t.metrics x r k) v.filed;
          gauge = refl;
        })

  -- Whatever became of an adoption, the orders are those that hold the invariant.
  adopted_orders-AllEntries :
      (timeout : ℕ) (orders : List (String × Tracked D)) (id : String) (o o' : Tracked D)
      (outcome : Outcome)
      → lookup id orders ≡ none
      → (outcome ≡ applied → IsFiled timeout id o')
      → AllEntries (IsFiled timeout) orders
      → AllEntries (IsFiled timeout) (adopted_orders (insert id o orders) id o' outcome).0
  unfolding adopted_orders
  adopted_orders-AllEntries timeout orders id o o' applied e f h =
      rw insert-insert (AllEntries-insert (IsFiled timeout) id o' orders (f refl) h)
  adopted_orders-AllEntries timeout orders id o o' _ e f h = rw (delete-insert id o orders e) h

  apply_unknown :
      OrderLaws dec
      → (t : Tracker D) (r : ExecReport D) → lookup r.cl_ord_id t.orders ≡ none
      → IsConsistent t
      → IsConsistent (apply t r).0
  unfolding apply
  apply_unknown laws t r e v =
      rw (e, apply)
        (record {
          filed =
              adopted_orders-AllEntries t.timeout t.orders r.cl_ord_id (adopt t.timeout r) _
                (apply_to t.metrics (adopt t.timeout r) r).1 e
                (adopt-IsFiled laws t.timeout t.metrics r) v.filed;
          gauge = refl;
        })

  -- Apply keeps the invariant, whatever the report says and whether its order is known.
  pub apply-IsConsistent :
      OrderLaws dec
      → (t : Tracker D) (r : ExecReport D) → IsConsistent t
      → IsConsistent (apply t r).0
  apply-IsConsistent laws t r v = elim (Option-cases (lookup r.cl_ord_id t.orders)) [
    | inl e ↦ apply_unknown laws t r e v
    | inr (x, e) ↦ apply_known laws t r x e v
  ]

  pub observe_order_keeps :
      (now : Time) (m : VenueMetrics) (o : Tracked D)
      → ((observe_order now m o).0.status ≡ o.status)
        × ((observe_order now m o).0.was_adopted ≡ o.was_adopted)
  unfolding observe_order
  observe_order_keeps now m o = ground arith

  observe_orders-AllEntries :
      (timeout : ℕ) (now : Time) (m : VenueMetrics) (orders : List (String × Tracked D))
      → AllEntries (IsFiled timeout) orders
      → AllEntries (IsFiled timeout) (observe_orders now m orders).0
  unfolding observe_orders
  observe_orders-AllEntries timeout now m [] h = tt
  observe_orders-AllEntries timeout now m ((id, o) ∷ rest) h = (
    ground (arith, observe_order_keeps now m o, h.0),
    observe_orders-AllEntries timeout now (observe_order now m o).1 rest h.1,
  )

  -- The count that the loop makes is that of the orders it leaves.
  observe_orders-count :
      (now : Time) (m : VenueMetrics) (orders : List (String × Tracked D))
      → (observe_orders now m orders).1 ≡ count_open (observe_orders now m orders).0
  unfolding observe_orders count_open
  observe_orders-count now m [] = refl
  observe_orders-count now m ((id, o) ∷ rest) =
      ground (
        arith,
        observe_order_keeps now m o,
        observe_orders-count now (observe_order now m o).1 rest,
      )

  pub observe-IsConsistent :
      (t : Tracker D) (now : Time) → IsConsistent t → IsConsistent (observe t now)
  unfolding observe
  observe-IsConsistent t now v = record {
    filed = observe_orders-AllEntries t.timeout now t.metrics t.orders v.filed;
    gauge = observe_orders-count now t.metrics t.orders;
  }
