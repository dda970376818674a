-- ===== src/Exec/Examples.antt =====
-- The theorems on the tracker at concrete orders and reports.
use funding_carry.Prelude.{
  ℕ, ◌≡◌, refl, List, [], ◌∷◌, none, some, String, true, false, inl, length, All, ◌≢◌,
}
use funding_carry.Prelude.Int.{ℤ, pos}
use funding_carry.Prelude.Text.{eq_iff}
use funding_carry.Decimal.{less_than_or_equal}
use funding_carry.Decimal.Whole.{whole, whole-OrderLaws}
use funding_carry.Dict.{lookup, insert, delete}
use funding_carry.Carry.{
  Order, Ack, ExecReport, ExecState, new, partial, filled, pending, buy, perp, limit, gtc,
}
use funding_carry.Exec.Status.{Status, terminal, overdue, adopted, duplicate, late}
use funding_carry.Exec.Transition.{transition}
use funding_carry.Exec.Transition.Replay.{transition_twice}
use funding_carry.Exec.Orders.{Tracked, has, submitted, complete, adopt, apply_to}
use funding_carry.Exec.Tracker.{
  Tracker, new_tracker, count_open, track, apply, observe, observe_orders, observe_order, is_late,
}
use funding_carry.Exec.Tracker.Invariant.{IsConsistent, new-IsConsistent}
use funding_carry.Exec.Tracker.History.{
  run-IsConsistent, Op, tracks, applies, observes, step, run, new_tracker-run-IsConsistent,
}
use funding_carry.Exec.Tracker.Race.{apply-track_comm}
use funding_carry.Exec.Tracker.Quantity.{run-cum_le}
use funding_carry.Exec.Transition.Lifecycle.{Life}
use funding_carry.Exec.Tracker.Progress.{run-Life, run-Rests}
use funding_carry.Exec.Tracker.Timeouts.{count_missed, new_tracker-run-ack_timeouts}
use funding_carry.Exec.Tracker.Query.{filter, overdue_orders}
use funding_carry.Exec.Tracker.Query.Arrangement.{filter_perm}
use funding_carry.Exec.Tracker.Query.Lateness.{IsUnanswered, overdue_orders-IsUnanswered}
use mathlib.Core.List.{Permᴰ}
use funding_carry.Exec.Tracker.Replay.{apply-run-duplicate}

abbrev order : Order ℤ
order = record {
  cl_ord_id = "A";
  asset = "ETH";
  leg = perp;
  side = buy;
  ord_type = limit;
  tif = gtc;
  qty = pos 10;
  limit_px = pos 2400;
  reduce_only = false;
}

abbrev ack : Ack
ack = record { cl_ord_id = "A"; venue_id = ""; at = 100 }

abbrev a_report : String → ExecState → ℕ → ℕ → ExecReport ℤ
a_report exec state cum leaves = record {
  cl_ord_id = "A";
  venue_id = "V";
  exec_id = exec;
  state = state;
  last_qty = pos 0;
  last_px = pos 2400;
  cum_qty = pos cum;
  leaves_qty = pos leaves;
  avg_px = pos 2400;
  fee = pos 0;
  reason = "";
  at = 120;
  received_at = 130;
}

abbrev acknowledgement : ExecReport ℤ
acknowledgement = a_report "1" new 0 10

abbrev part : ExecReport ℤ
part = a_report "2" partial 4 6

abbrev all_filled : ExecReport ℤ
all_filled = a_report "3" filled 10 0

abbrev start : Tracker ℤ
start = new_tracker 30

abbrev history : List (Op ℤ)
history = tracks order ack ∷ applies acknowledgement ∷ observes 200 ∷ applies all_filled ∷ []

-- The line opens all that a run of the tracker computes with.
machine : Tracker ℤ → List (Op ℤ) → Tracker ℤ
unfolding run step track apply observe lookup insert delete count_open submitted complete adopt
    apply_to transition observe_orders observe_order is_late new_tracker has terminal overdue
machine t ops = run t ops

-- A partial that arrives behind the fill which it precedes is late.
late_partial : (apply (machine start history) part).2 ≡ late
unfolding machine
late_partial = refl

tracked : Tracker ℤ
unfolding machine
tracked = machine start (tracks order ack ∷ [])

tracked-IsConsistent : IsConsistent tracked
unfolding tracked
tracked-IsConsistent =
    run-IsConsistent whole-OrderLaws start (tracks order ack ∷ []) (new-IsConsistent 30)

new_tracker-run-IsConsistent_example : IsConsistent (run (new_tracker 30) history)
new_tracker-run-IsConsistent_example = new_tracker-run-IsConsistent whole-OrderLaws 30 history

apply-run-duplicate_example :
    ((apply (run (apply tracked part).0 history) part).2 ≡ duplicate)
    × ((apply (run (apply tracked part).0 history) part).0.orders
        ≡ (run (apply tracked part).0 history).orders)
unfolding tracked
apply-run-duplicate_example = apply-run-duplicate tracked part history refl (inl refl)

apply-track_comm_example :
    ((apply start acknowledgement).2 ≡ adopted)
    × ((track (apply start acknowledgement).0 order ack).1 ≡ none)
    × ((track (apply start acknowledgement).0 order ack).0.orders
        ≡ (apply (track start order ack).0 acknowledgement).0.orders)
unfolding machine
apply-track_comm_example =
    apply-track_comm whole-OrderLaws start order ack acknowledgement refl refl refl

run-cum_le_example :
    (y : Tracked ℤ) × (lookup "A" (run tracked (applies part ∷ [])).orders ≡ some y)
    × (less_than_or_equal (pos 0) y.status.cum_qty ≡ true)
unfolding tracked
run-cum_le_example =
    run-cum_le whole-OrderLaws tracked (applies part ∷ []) "A" (submitted 30 order ack)
      ((λ e. cc), tt) tracked-IsConsistent refl

run-Life_example :
    (y : Tracked ℤ) × (lookup "A" (run tracked history).orders ≡ some y)
    × Life pending y.status.state
unfolding tracked
run-Life_example = run-Life tracked history "A" (submitted 30 order ack) refl

-- The order after its last fill.
finished : Tracked ℤ
unfolding machine
finished = (apply_to start.metrics (submitted 30 order ack) all_filled).0

run-Rests_example :
    (y : Tracked ℤ) × (lookup "A" (run (apply tracked all_filled).0 history).orders ≡ some y)
    × (y.status.state ≡ filled)
    × (y.status.cum_qty ≡ pos 10)
    × (y.status.leaves_qty ≡ pos 0)
    × (y.status.avg_px ≡ pos 2400)
    × (y.status.updated_at ≡ 120)
    × (y.status.reason ≡ "")
unfolding tracked finished
run-Rests_example = run-Rests (apply tracked all_filled).0 history "A" finished refl refl

new_tracker-run-ack_timeouts_example :
    length (run (new_tracker {D = ℤ} 30) history).metrics.ack_timeouts
    ≡ count_missed (run (new_tracker 30) history).orders
new_tracker-run-ack_timeouts_example = new_tracker-run-ack_timeouts 30 history

-- The order again, under another id.
other_order : Tracked ℤ
unfolding machine
other_order = submitted 30 (record order { cl_ord_id = "B" }) ack

holding : Tracked ℤ → Tracked ℤ → String → String → Tracker ℤ
holding x y j k = record start { orders = (j, x) ∷ (k, y) ∷ [] }

ids_differ : ◌≢◌ {A = String} "A" "B"
ids_differ e = cc ((eq_iff "A" "B").1 e)

filter_perm_example :
    filter (holding (submitted 30 order ack) other_order "A" "B") (λ s. true)
    ≡ filter (holding other_order (submitted 30 order ack) "B" "A") (λ s. true)
unfolding holding other_order
filter_perm_example =
    filter_perm (holding (submitted 30 order ack) other_order "A" "B")
      (holding other_order (submitted 30 order ack) "B" "A") (λ s. true)
      ((refl, (refl, tt)), ((ids_differ, tt), (tt, tt))) (Permᴰ.swap refl refl)

overdue_orders-IsUnanswered_example :
    All (IsUnanswered tracked.timeout 500) (overdue_orders tracked 500)
overdue_orders-IsUnanswered_example = overdue_orders-IsUnanswered tracked 500 tracked-IsConsistent

abbrev cur : Status ℤ
cur = record {
  cl_ord_id = "A";
  venue_id = "";
  qty = pos 10;
  state = pending;
  cum_qty = pos 0;
  leaves_qty = pos 10;
  avg_px = pos 0;
  reason = "";
  was_adopted = false;
  submitted_at = 100;
  updated_at = 100;
  deadline = 130;
}

transition_twice_example :
    transition (transition cur part).0 part ≡ ((transition cur part).0, duplicate)
unfolding transition
transition_twice_example = transition_twice whole-OrderLaws cur part refl
