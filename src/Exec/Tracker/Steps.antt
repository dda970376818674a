-- ===== src/Exec/Tracker/Steps.antt =====
-- Track and Apply, by what the tracker knows of the order.
use funding_carry.Prelude.{◌≡◌, none, some, true, arith}
use funding_carry.Decimal.{Decimal}
use funding_carry.Dict.{lookup, insert}
use funding_carry.Carry.{Order, Ack, ExecReport}
use funding_carry.Exec.Status.{applied, adopted}
use funding_carry.Exec.Orders.{Tracked, submitted, complete, adopt, apply_to}
use funding_carry.Exec.Tracker.{
  Tracker, adopted_orders, track_found, apply_found, track, apply, settle,
}

module _ {D : Type 0} ⦃dec : Decimal D⦄ where
  pub track_unknown :
      (t : Tracker D) (o : Order D) (ack : Ack)
      → lookup o.cl_ord_id t.orders ≡ none
      → ((track t o ack).1 ≡ none)
        × ((track t o ack).0.timeout ≡ t.timeout)
        × ((track t o ack).0.orders ≡ insert o.cl_ord_id (submitted t.timeout o ack) t.orders)
  unfolding track track_found
  track_unknown t o ack e = ground arith

  pub track_adopted :
      (t : Tracker D) (o : Order D) (ack : Ack) (x : Tracked D)
      → lookup o.cl_ord_id t.orders ≡ some x
      → x.was_adopted ≡ true
      → ((track t o ack).1 ≡ none)
        × ((track t o ack).0.orders
            ≡ insert o.cl_ord_id (complete t.timeout t.metrics x o ack).0 t.orders)
  unfolding track track_found
  track_adopted t o ack x e a = ground arith

  pub apply_known :
      (t : Tracker D) (r : ExecReport D) (x : Tracked D)
      → lookup r.cl_ord_id t.orders ≡ some x
      → ((apply t r).2 ≡ (apply_to t.metrics x r).1)
        × ((apply t r).0.orders ≡ insert r.cl_ord_id (apply_to t.metrics x r).0 t.orders)
  unfolding apply apply_found settle
  apply_known t r x e = ground arith

  pub apply_adopts :
      (t : Tracker D) (r : ExecReport D)
      → lookup r.cl_ord_id t.orders ≡ none
      → (apply_to t.metrics (adopt t.timeout r) r).1 ≡ applied
      → ((apply t r).2 ≡ adopted)
        × ((apply t r).0.timeout ≡ t.timeout)
        × ((apply t r).0.orders
            ≡ insert r.cl_ord_id
                (apply_to t.metrics (adopt t.timeout r) r).0
                (insert r.cl_ord_id (adopt t.timeout r) t.orders))
  unfolding apply apply_found adopted_orders settle
  apply_adopts t r e h = ground arith
