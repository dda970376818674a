-- ===== src/Exec/Tracker/Quantity.antt =====
-- The filled quantity of an order over any history of the tracker.
use funding_carry.Prelude.{◌≡◌, List, some, String, true, false, arith, All}
use funding_carry.Decimal.{Decimal, OrderLaws, less_than_or_equal, is_zero}
use funding_carry.Dict.{lookup}
use funding_carry.Dict.Laws.{AllEntries-lookup}
use funding_carry.Carry.{ExecReport, new, pending}
use funding_carry.Exec.Status.{Status}
use funding_carry.Exec.Transition.Quantity.{transition-cum_le}
use funding_carry.Exec.Metrics.{VenueMetrics}
use funding_carry.Exec.Orders.{Tracked, complete, apply_to}
use funding_carry.Exec.Orders.Invariant.{IsFiled, apply_to_cases, transition_answers}
use funding_carry.Exec.Tracker.{Tracker}
use funding_carry.Exec.Tracker.Invariant.{IsConsistent, observe_order_keeps}
use funding_carry.Exec.Tracker.History.{Op, run}
use funding_carry.Exec.Tracker.Follow.{IsKept, FineOp, run_Later}

module _ {D : Type 0} ⦃dec : Decimal D⦄ where
  -- A NEW claims nothing filled; the rule table does not check it.
  abbrev pub IsPlainAck : ExecReport D → Type 0
  IsPlainAck r = r.state ≡ new → is_zero r.cum_qty ≡ true

  abbrev Unfilled : Tracked D → Type 0
  Unfilled x = x.status.state ≡ pending → x.status.cum_qty ≡ dec.zero

  abbrev Grows : Tracked D → Tracked D → Type 0
  Grows x y =
      Unfilled x → Unfilled y × (less_than_or_equal x.status.cum_qty y.status.cum_qty ≡ true)

  -- An order of known size that is filled within it.
  abbrev Fits : Tracked D → Type 0
  Fits x =
      (x.was_adopted ≡ false)
      × (is_zero x.status.qty ≡ false)
      × (less_than_or_equal dec.zero x.status.qty ≡ true)
      × (less_than_or_equal x.status.cum_qty x.status.qty ≡ true)

  abbrev Sized : Tracked D → Tracked D → Type 0
  Sized x y = Fits x → Fits y × (y.status.qty ≡ x.status.qty)

  module _ (laws : OrderLaws dec) where
    plain_ack :
        (cur : Status D) (r : ExecReport D)
        → IsPlainAck r
        → (cur.state ≡ pending → cur.cum_qty ≡ dec.zero)
        → r.state ≡ new
        → cur.state ≡ pending
        → less_than_or_equal cur.cum_qty r.cum_qty ≡ true
    plain_ack cur r fine u n p = rw (u p) (ground (arith, fine n, laws.cmp_flip r.cum_qty dec.zero))

    apply_to-Grows :
        (m : VenueMetrics) (x : Tracked D) (r : ExecReport D)
        → IsPlainAck r
        → Grows x (apply_to m x r).0
    apply_to-Grows m x r fine u = ground (
      arith,
      apply_to_cases m x r,
      laws.cmp_refl x.status.cum_qty,
      transition_answers x.status r,
      transition-cum_le laws x.status r (plain_ack x.status r fine u),
    )

    Grows-IsKept : IsKept IsPlainAck Grows
    unfolding complete
    Grows-IsKept = record {
      same = λ x u. (u, ground (arith, laws.cmp_refl x.status.cum_qty));
      chained = λ x y z f g u.
          let (v, h) = f u in
          let (w, k) = g v in
          (w, laws.le_trans x.status.cum_qty y.status.cum_qty z.status.cum_qty h k);
      completing = λ timeout m x o ack a u. (u, ground (arith, laws.cmp_refl x.status.cum_qty));
      applying = λ m x r f. apply_to-Grows m x r f;
      observing =
          λ now m x u. ground (arith, observe_order_keeps now m x, laws.cmp_refl x.status.cum_qty);
    }

    -- Over any history whose NEW reports claim nothing filled, the filled quantity of an order in a
    -- consistent tracker does not fall, however the reports cross or are replayed.
    pub run-cum_le :
        (t : Tracker D) (ops : List (Op D)) (id : String) (x : Tracked D)
        → All (FineOp IsPlainAck) ops
        → IsConsistent t
        → lookup id t.orders ≡ some x
        → (y : Tracked D) × (lookup id (run t ops).orders ≡ some y)
          × (less_than_or_equal x.status.cum_qty y.status.cum_qty ≡ true)
    run-cum_le t ops id x fine v e =
        let k = AllEntries-lookup (IsFiled t.timeout) id x t.orders e v.filed in
        let (y, e', g) = run_Later IsPlainAck Grows Grows-IsKept t ops id x fine e in
        (y, e', (g k.sound.unfilled).1)
