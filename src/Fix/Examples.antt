-- ===== src/Fix/Examples.antt =====
-- The theorems on the venue simulator at concrete books and orders, and runs of the engine.
use funding_carry.Prelude.{◌≡◌, refl, List, [], ◌∷◌, true, ◌<◌, ◌≤◌, max, length, All, arith}
use funding_carry.Prelude.Int.{ℤ, pos, ◌*ℤ◌, ◌+ℤ◌, ◌-ℤ◌}
use funding_carry.Decimal.{is_positive, equal}
use funding_carry.Decimal.Whole.{whole, whole-OrderLaws, shift_ℤ}
use funding_carry.Decimal.Whole.Laws.{whole-IntegerLaws, whole-PriceLaws}
use funding_carry.Dict.{lookup, insert, delete, values}
use funding_carry.Prelude.Sort.{sort, insert_sorted}
use funding_carry.Fix.Terms.{reject_duplicate, order_of, Book, buy, gtc, limit, OrdStatus}
use funding_carry.Fix.Fill.{marketable, exec_px, slice_sizes, cut, whole_slices, jitter_latency}
use funding_carry.Fix.Fill.Price.{Within, exec_px-Within}
use funding_carry.Fix.Fill.Slices.{total, slice_sizes-total, slice_sizes_plan}
use funding_carry.Fix.Engine.State.{
  Submission, CancelRequest, Order, FillModel, Engine, Env, Output, recorded, sent, refused, leaves,
  avg_px, done, book_fresh, known, next_latency,
}
use funding_carry.Fix.Engine.Handlers.{
  publish, unsupported_text, refusal, refusal_after, new_order, admit, accept, accept_or, finish,
  filled_by, print_fill, print_slice, cancel_remainder, after_slice, evaluate, cancel_requested,
}
use funding_carry.Fix.Engine.Loop.{
  Event, submitted, fired, found, missing, read_book, live_in_order, evaluate_if_due, evaluate_due,
  tick, step, run_from, run, new_engine,
}
use funding_carry.Fix.Engine.Ledger.{IsSound}
use funding_carry.Fix.Engine.Ledger.Orders.{run-IsSound}
use funding_carry.Fix.Engine.Finality.Cancel.{IsEnded, cancel_requested-run_from}
use funding_carry.Fix.Engine.Handlers.{reject}
use funding_carry.Fix.Engine.Identity.{accept-run_from}
use funding_carry.Fix.Engine.Progress.{IsAhead, evaluate-IsAhead}

abbrev book : Book ℤ
book = record { ts = 1000; bid = pos 2399; ask = pos 2400 }

abbrev fill_model : FillModel ℤ
fill_model = record {
  latency = 10;
  slippage_bps = pos 2;
  partial_threshold = pos 3;
  partial_slices = 2;
  book_poll = 100;
  book_max_age = 500;
}

abbrev env : Env ℤ
env = record { records = λ r. true; sends = λ r. true; draw = λ n d. 3 }

abbrev order : Submission ℤ
order = record {
  cl_ord_id = "A";
  symbol = "ETH";
  side = buy;
  tif = gtc;
  ord_type = limit;
  qty = pos 5;
  limit_px = pos 2400;
  session = "S";
  at = 1010;
}

abbrev cancel : CancelRequest
cancel = record { cl_ord_id = "C"; orig_cl_ord_id = "A"; session = "S"; at = 1020 }

-- The order of five contracts fills in two slices, of two and of three.
abbrev filled_run : List (Event ℤ)
filled_run = submitted order ∷ fired 1030 1030 missing ∷ fired 1050 1050 missing ∷ []

abbrev statuses : List (Output ℤ) → List (OrdStatus × ℤ)
statuses [] = []
statuses (sent r ∷ xs) = (r.ord_status, r.cum_qty) ∷ statuses xs
statuses (recorded r ∷ xs) = statuses xs
statuses (refused r ∷ xs) = statuses xs

filled_run_reports :
    statuses (run env (new_engine "ETH" fill_model "R") 1000 (found book) filled_run).0.outbox
    ≡ (OrdStatus.filled, pos 5) ∷ (OrdStatus.partially_filled, pos 2) ∷ (OrdStatus.new, pos 0) ∷ []
unfolding run new_engine run_from step read_book accept accept_or refusal refusal_after known lookup
    unsupported_text book_fresh admit new_order next_latency publish slice_sizes whole_slices cut
    jitter_latency tick live_in_order values evaluate_due evaluate_if_due evaluate marketable
    print_slice print_fill filled_by exec_px done leaves avg_px after_slice cancel_remainder finish
    insert delete shift_ℤ ◌*ℤ◌ ◌+ℤ◌ ◌-ℤ◌ sort insert_sorted
filled_run_reports = refl

exec_px-Within_example : Within buy (pos 2400) book (exec_px buy (pos 2400) book (pos 2))
unfolding marketable
exec_px-Within_example =
    exec_px-Within whole-OrderLaws whole-PriceLaws buy (pos 2400) book (pos 2) refl refl refl refl

slice_sizes-total_example : equal (total (slice_sizes (pos 5) (pos 3) 2)) (pos 5) ≡ true
slice_sizes-total_example =
    slice_sizes-total whole-OrderLaws whole-IntegerLaws (pos 5) (pos 3) 2 refl refl

slice_sizes_plan_example :
    All (λ x. is_positive x ≡ true) (slice_sizes (pos 5) (pos 3) 2)
    × (0 < length (slice_sizes (pos 5) (pos 3) 2))
    × (length (slice_sizes (pos 5) (pos 3) 2) ≤ max 1 2)
slice_sizes_plan_example = slice_sizes_plan whole-OrderLaws whole-IntegerLaws (pos 5) (pos 3) 2 refl

run-IsSound_example :
    IsSound (run env (new_engine "ETH" fill_model "R") 1000 (found book) filled_run)
run-IsSound_example =
    run-IsSound whole-OrderLaws whole-IntegerLaws env "ETH" fill_model "R" 1000 (found book)
      filled_run (refl, tt)

-- The order on the book, as `accept` puts it there.
abbrev live_order : Order ℤ
live_order = record {
  cl_ord_id = "A";
  order_id = order_of "R" 1;
  session = "S";
  symbol = "ETH";
  side = buy;
  tif = gtc;
  qty = pos 5;
  limit_px = pos 2400;
  slices = pos 2 ∷ pos 3 ∷ [];
  next = 0;
  cum_qty = pos 0;
  notional = pos 0;
  ready_at = 1018;
  exec_seq = 0;
}

abbrev open_engine : Engine ℤ
open_engine = record (new_engine "ETH" fill_model "R") {
  book = book;
  have_book = true;
  next_book_read = 1100;
  live = ("A", live_order) ∷ [];
}

cancel_requested-run_from_example :
    IsEnded env "A" OrdStatus.canceled
      (run_from env
        (cancel_requested env
          (run env (new_engine "ETH" fill_model "R") 1000 (found book) (submitted order ∷ [])).0
          cancel)
        (fired 1050 1050 missing ∷ [])).0
      cancel
      order
unfolding run new_engine run_from step read_book accept accept_or refusal refusal_after known lookup
    unsupported_text book_fresh admit new_order next_latency publish slice_sizes whole_slices cut
    jitter_latency insert
cancel_requested-run_from_example =
    cancel_requested-run_from env "ETH" fill_model "R" 1000 (found book) (submitted order ∷ [])
      (fired 1050 1050 missing ∷ []) cancel cancel order live_order refl refl refl

evaluate-IsAhead_example :
    IsAhead live_order 1050 (lookup "A" (evaluate env open_engine live_order 1050).0.live)
evaluate-IsAhead_example =
    evaluate-IsAhead env open_engine live_order 1050 (omega arith) (omega arith)

-- An engine with a fresh book and no orders.
abbrev idle_engine : Engine ℤ
idle_engine = record (new_engine "ETH" fill_model "R") { book = book; have_book = true }

accept-run_from_example :
    accept env (run_from env (accept env idle_engine order) (fired 1050 1050 missing ∷ [])).0 order
    ≡ reject env
        (run_from env (accept env idle_engine order) (fired 1050 1050 missing ∷ [])).0
        order
        reject_duplicate
unfolding new_engine refusal refusal_after known lookup unsupported_text book_fresh
accept-run_from_example =
    accept-run_from env idle_engine order order (fired 1050 1050 missing ∷ []) refl refl
