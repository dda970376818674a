-- ===== src/Exec/Tracker/Follow.antt =====
-- What becomes of one order in a step of the tracker: a relation that the operations on the order
-- keep is kept by the step, and the order is never dropped.
use funding_carry.Prelude.{
  ℕ, All, ◌≡◌, ◌≢◌, ◌∙◌, List, [], ◌∷◌, Option, none, some, String, true, arith, ◌⊎◌, inl, inr,
}
use funding_carry.Prelude.Text.{eq_iff}
use funding_carry.Decimal.{Decimal}
use funding_carry.Clock.{Time}
use funding_carry.Dict.{lookup, insert}
use funding_carry.Dict.Laws.{lookup-insert, lookup-delete, lookup-insert_self}
use funding_carry.Carry.{Order, Ack, ExecReport}
use funding_carry.Exec.Status.{Outcome, applied}
use funding_carry.Exec.Metrics.{VenueMetrics}
use funding_carry.Exec.Orders.{Tracked, submitted, complete, adopt, apply_to}
use funding_carry.Exec.Tracker.{
  Tracker, adopted_orders, track_found, apply_found, track, apply, observe, observe_orders,
  observe_order,
}
use funding_carry.Exec.Tracker.History.{Op, tracks, applies, observes, step, run}

module _ {D : Type 0} ⦃dec : Decimal D⦄ where
  track_found-lookup :
      (t : Tracker D) (o : Order D) (ack : Ack) (id : String) (x : Tracked D)
      (y : Option (Tracked D))
      → lookup id t.orders ≡ some x
      → (o.cl_ord_id ≡ id → y ≡ some x)
      → (lookup id (track_found t o ack y).0.orders ≡ some x)
        ⊎ ((x.was_adopted ≡ true)
            × (lookup id (track_found t o ack y).0.orders
                ≡ some (complete t.timeout t.metrics x o ack).0))
  unfolding track_found
  track_found-lookup t o ack id x none e h = ground (
    arith,
    eq_iff o.cl_ord_id id,
    lookup-insert o.cl_ord_id id (submitted t.timeout o ack) t.orders,
  )
  track_found-lookup t o ack id x (some y) e h = ground (
    arith,
    eq_iff o.cl_ord_id id,
    lookup-insert o.cl_ord_id id (complete t.timeout t.metrics y o ack).0 t.orders,
  )

  -- The orders as an operation leaves them, looked up.
  pub track-lookup :
      (t : Tracker D) (o : Order D) (ack : Ack) (id : String) (x : Tracked D)
      → lookup id t.orders ≡ some x
      → (lookup id (track t o ack).0.orders ≡ some x)
        ⊎ ((x.was_adopted ≡ true)
            × (lookup id (track t o ack).0.orders ≡ some (complete t.timeout t.metrics x o ack).0))
  unfolding track
  track-lookup t o ack id x e =
      track_found-lookup t o ack id x (lookup o.cl_ord_id t.orders) e (λ p. rw p e)

  lookup-adopted_orders :
      (orders : List (String × Tracked D)) (key id : String) (a b : Tracked D) (outcome : Outcome)
      → key ≢ id
      → lookup id (adopted_orders (insert key a orders) key b outcome).0 ≡ lookup id orders
  unfolding adopted_orders
  lookup-adopted_orders orders key id a b applied n = ground (
    arith,
    eq_iff key id,
    lookup-insert key id b (insert key a orders),
    lookup-insert key id a orders,
  )
  lookup-adopted_orders orders key id a b _ n = ground (
    arith,
    eq_iff key id,
    lookup-delete key id (insert key a orders),
    lookup-insert key id a orders,
  )

  pub track_new :
      (t : Tracker D) (o : Order D) (ack : Ack)
      → lookup o.cl_ord_id t.orders ≡ none
      → lookup o.cl_ord_id (track t o ack).0.orders ≡ some (submitted t.timeout o ack)
  unfolding track track_found
  track_new t o ack e = rw (e, track) (lookup-insert_self o.cl_ord_id _ t.orders)

  apply_found-lookup :
      (t : Tracker D) (r : ExecReport D) (id : String) (x : Tracked D) (y : Option (Tracked D))
      → lookup id t.orders ≡ some x
      → (r.cl_ord_id ≡ id → y ≡ some x)
      → (lookup id (apply_found t r y).0.orders ≡ some x)
        ⊎ (lookup id (apply_found t r y).0.orders ≡ some (apply_to t.metrics x r).0)
  unfolding apply_found
  apply_found-lookup t r id x none e h =
      let o = adopt t.timeout r in
      inl (
        lookup-adopted_orders t.orders r.cl_ord_id id o _ (apply_to t.metrics o r).1 (λ p. cc (h p))
        ∙ e)
  apply_found-lookup t r id x (some y) e h = ground (
    arith,
    eq_iff r.cl_ord_id id,
    lookup-insert r.cl_ord_id id (apply_to t.metrics y r).0 t.orders,
  )

  pub apply-lookup :
      (t : Tracker D) (r : ExecReport D) (id : String) (x : Tracked D)
      → lookup id t.orders ≡ some x
      → (lookup id (apply t r).0.orders ≡ some x)
        ⊎ (lookup id (apply t r).0.orders ≡ some (apply_to t.metrics x r).0)
  unfolding apply
  apply-lookup t r id x e =
      apply_found-lookup t r id x (lookup r.cl_ord_id t.orders) e (λ p. rw p e)

  observe_order-metrics :
      (now : Time) (m n : VenueMetrics) (x : Tracked D)
      → (observe_order now m x).0 ≡ (observe_order now n x).0
  unfolding observe_order
  observe_order-metrics now m n x = ground arith

  lookup-observe_orders :
      (now : Time) (m n : VenueMetrics) (orders : List (String × Tracked D)) (id : String)
      (x : Tracked D)
      → lookup id orders ≡ some x
      → lookup id (observe_orders now m orders).0 ≡ some (observe_order now n x).0
  unfolding observe_orders lookup
  lookup-observe_orders now m n [] id x e = cc
  lookup-observe_orders now m n ((j, y) ∷ rest) id x e = ground (
    arith,
    observe_order-metrics now m n y,
    lookup-observe_orders now (observe_order now m y).1 n rest id x,
  )

  pub lookup-observe :
      (t : Tracker D) (now : Time) (id : String) (x : Tracked D)
      → lookup id t.orders ≡ some x
      → lookup id (observe t now).orders ≡ some (observe_order now t.metrics x).0
  unfolding observe
  lookup-observe t now id x e = lookup-observe_orders now t.metrics t.metrics t.orders id x e

module _ {D : Type 0} ⦃dec : Decimal D⦄ where
  -- A relation between an order and what it becomes, over the reports that `Fine` admits.
  pub record IsKept (Fine : ExecReport D → Type 0) (R : Tracked D → Tracked D → Type 0)
      : Type 0 where
    pub same : (x : Tracked D) → R x x
    pub chained : (x y z : Tracked D) → R x y → R y z → R x z
    pub completing :
        (timeout : ℕ) (m : VenueMetrics) (x : Tracked D) (o : Order D) (ack : Ack)
        → x.was_adopted ≡ true
        → R x (complete timeout m x o ack).0
    pub applying :
        (m : VenueMetrics) (x : Tracked D) (r : ExecReport D) → Fine r → R x (apply_to m x r).0
    pub observing : (now : Time) (m : VenueMetrics) (x : Tracked D) → R x (observe_order now m x).0

  abbrev pub AnyReport : ExecReport D → Type 0
  AnyReport r = Unit

  abbrev pub FineOp : (ExecReport D → Type 0) → Op D → Type 0
  FineOp Fine (tracks o ack) = Unit
  FineOp Fine (applies r) = Fine r
  FineOp Fine (observes now) = Unit

  -- The order under an id, later: it is there, and in the relation to what it was.
  abbrev pub Later : (Tracked D → Tracked D → Type 0) → Tracker D → String → Tracked D → Type 0
  Later R t id x = (y : Tracked D) × (lookup id t.orders ≡ some y) × R x y

  pub step-Later :
      (Fine : ExecReport D → Type 0) (R : Tracked D → Tracked D → Type 0)
      → IsKept Fine R
      → (t : Tracker D) (op : Op D) (id : String) (x : Tracked D) → FineOp Fine op
      → lookup id t.orders ≡ some x
      → Later R (step t op) id x
  unfolding step
  step-Later Fine R k t (tracks o ack) id x f e = elim (track-lookup t o ack id x e) [
    | inl q ↦ (x, q, k.same x)
    | inr q ↦ (_, q.1, k.completing t.timeout t.metrics x o ack q.0)
  ]
  step-Later Fine R k t (applies r) id x f e = elim (apply-lookup t r id x e) [
    | inl q ↦ (x, q, k.same x)
    | inr q ↦ (_, q, k.applying t.metrics x r f)
  ]
  step-Later Fine R k t (observes now) id x f e =
      (_, lookup-observe t now id x e, k.observing now t.metrics x)

  -- So it is through any history: no order is ever dropped.
  pub run_Later :
      (Fine : ExecReport D → Type 0) (R : Tracked D → Tracked D → Type 0)
      → IsKept Fine R
      → (t : Tracker D) (ops : List (Op D)) (id : String) (x : Tracked D) → All (FineOp Fine) ops
      → lookup id t.orders ≡ some x
      → Later R (run t ops) id x
  unfolding run
  run_Later Fine R k t [] id x f e = (x, e, k.same x)
  run_Later Fine R k t (op ∷ ops) id x f e =
      let (y, e', h) = step-Later Fine R k t op id x f.0 e in
      let (z, e'', h') = run_Later Fine R k (step t op) ops id y f.1 e' in
      (z, e'', k.chained x y z h h')

  pub any_FineOp : (ops : List (Op D)) → All (FineOp AnyReport) ops
  any_FineOp [] = tt
  any_FineOp (tracks o ack ∷ ops) = (tt, any_FineOp ops)
  any_FineOp (applies r ∷ ops) = (tt, any_FineOp ops)
  any_FineOp (observes now ∷ ops) = (tt, any_FineOp ops)
