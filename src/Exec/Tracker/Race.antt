-- ===== src/Exec/Tracker/Race.antt =====
-- The window between Submit's return and Track: the venue's first report may arrive before Track is
-- called, and the order is then adopted first and completed after.
use funding_carry.Prelude.{ℕ, ◌≡◌, sym, ap, ◌∙◌, none, some, true, arith}
use funding_carry.Prelude.Text.{eq_iff, eq_refl}
use funding_carry.Decimal.{Decimal, OrderLaws}
use funding_carry.Dict.{lookup, insert}
use funding_carry.Dict.Laws.{lookup-insert_self, insert-insert}
use funding_carry.Carry.{Order, Ack, ExecReport}
use funding_carry.Exec.Status.{applied, adopted}
use funding_carry.Exec.Transition.{transition}
use funding_carry.Exec.Metrics.{VenueMetrics}
use funding_carry.Exec.Orders.{submitted, complete, adopt, apply_to}
use funding_carry.Exec.Tracker.{Tracker, track, apply}
use funding_carry.Exec.Orders.Invariant.{apply_to_cases}
use funding_carry.Exec.Tracker.Steps.{track_unknown, track_adopted, apply_known, apply_adopts}

module _ {D : Type 0} ⦃dec : Decimal D⦄ (laws : OrderLaws dec) where
  adopt_applies :
      (timeout : ℕ) (o : Order D) (ack : Ack) (r : ExecReport D) (m n : VenueMetrics)
      → (apply_to m (submitted timeout o ack) r).1 ≡ applied
      → (apply_to n (adopt timeout r) r).1 ≡ applied
  unfolding apply_to transition submitted adopt
  adopt_applies timeout o ack r m n h = ground (arith, laws.cmp_refl dec.zero)

  complete_adopt :
      (timeout : ℕ) (o : Order D) (ack : Ack) (r : ExecReport D) (k m n : VenueMetrics)
      → r.cl_ord_id ≡ o.cl_ord_id
      → (apply_to m (submitted timeout o ack) r).1 ≡ applied
      → (complete timeout k (apply_to n (adopt timeout r) r).0 o ack).0
        ≡ (apply_to m (submitted timeout o ack) r).0
  unfolding apply_to transition submitted adopt complete
  complete_adopt timeout o ack r k m n e h =
      ground (arith, laws.cmp_refl dec.zero, eq_refl "", eq_iff r.venue_id "")

  adopt_not_completed :
      (m : VenueMetrics) (timeout : ℕ) (r : ExecReport D)
      → (apply_to m (adopt timeout r) r).0.was_adopted ≡ true
  unfolding adopt
  adopt_not_completed m timeout r = ground (arith, apply_to_cases m (adopt timeout r) r)

  -- For an order that the tracker does not know, it makes no difference to the orders kept whether
  -- Track or the venue's first report comes first, provided that the report is one that the
  -- tracked order takes: the report is then adopted, Track completes the adoption without an error,
  -- and the records are the same.
  pub apply-track_comm :
      (t : Tracker D) (o : Order D) (ack : Ack) (r : ExecReport D)
      → r.cl_ord_id ≡ o.cl_ord_id
      → lookup o.cl_ord_id t.orders ≡ none
      → (apply (track t o ack).0 r).2 ≡ applied
      → ((apply t r).2 ≡ adopted)
        × ((track (apply t r).0 o ack).1 ≡ none)
        × ((track (apply t r).0 o ack).0.orders ≡ (apply (track t o ack).0 r).0.orders)
  apply-track_comm t o ack r e fresh h =
      let a = submitted t.timeout o ack in
      let first = track_unknown t o ack fresh in
      let known : lookup r.cl_ord_id (track t o ack).0.orders ≡ some a =
        simp (e, first.2) (lookup-insert_self o.cl_ord_id a t.orders) in
      let second = apply_known (track t o ack).0 r a known in
      let taken = sym second.0 ∙ h in
      let adoption =
        apply_adopts t r (simp e fresh)
          (adopt_applies t.timeout o ack r (track t o ack).0.metrics t.metrics taken) in
      let x = (apply_to t.metrics (adopt t.timeout r) r).0 in
      let there : lookup o.cl_ord_id (apply t r).0.orders ≡ some x =
        simp (adoption.2, e) (lookup-insert_self o.cl_ord_id x _) in
      let completion =
        track_adopted (apply t r).0 o ack x there (adopt_not_completed t.metrics t.timeout r) in
      (
        adoption.0,
        completion.0,
        rw (completion.1, second.1, first.2, adoption.1, adoption.2)
            (simp (e, insert-insert)
              (ap (λ c. insert o.cl_ord_id c t.orders)
                (complete_adopt t.timeout o ack r (apply t r).0.metrics (track t o ack).0.metrics
                  t.metrics e taken))),
      )
