-- ===== src/Ingest/Examples.antt =====
-- The theorems on the ingest service at concrete inputs. The prices are whole numbers; `tally` renders
-- them in strokes, an even number for one that is not negative and an odd one else.
use funding_carry.Prelude.{
  ℕ, zero, suc, ◌/◌, ◌^◌, ◌*◌, ◌<◌, min, ◌≡◌, ◌↔◌, refl, ap, sym, ◌∙◌, List, [], ◌∷◌, Option, some,
  String, true, false, All, arith,
}
use Prim.Native.String
use Prim.Native.String.count
use mathlib.Core.List.{Permᴰ}
use funding_carry.Prelude.Int.{ℤ, pos, negsuc, ◌≤ℤ◌}
use funding_carry.Prelude.Sort.{AllPairs, sort, insert_sorted}
use funding_carry.Decimal.{equal, greater_than, less_than}
use funding_carry.Decimal.Whole.{whole, whole-OrderLaws}
use funding_carry.Dict.{values, insert}
use funding_carry.Ingest.Backoff.{Backoff, with_defaults, window, delay, equal_jitter}
use funding_carry.Ingest.Backoff.Schedule.{delay_within, window_doubles}
use funding_carry.Ingest.Book.{
  Level, Book, new_book, side_map, set_level, apply_to, apply, apply_all, best_first, top, best,
}
use funding_carry.Ingest.Book.Top.{IsCanonical}
use funding_carry.Ingest.Book.Best.{top_perm, best-top}
use funding_carry.Ingest.Trades.{
  TradeSample, side_buy, continues, sweeps_from, count_sweeps, aggregate,
}
use funding_carry.Ingest.Trades.Sweeps.{count_sweeps_le}
use funding_carry.Ingest.Trades.Arrangement.{aggregate_perm}
use funding_carry.Prelude.{length, ◌≤◌}
use funding_carry.Ingest.Level2.{Message, new_handler}
use funding_carry.Ingest.Level2.Snapshots.{Op, handles, resets, ticks, run, run-rising}
use funding_carry.Ingest.Level2.Readiness.{run-silent}

abbrev unset : Backoff
unset = record { base = pos 0; ceiling = pos 0 }

half : ℕ → ℕ
half h = h / 2

delay_within_example :
    (pos 1 ≤ℤ delay (equal_jitter half) (with_defaults unset) (pos 40))
    × (delay (equal_jitter half) (with_defaults unset) (pos 40) ≤ℤ (with_defaults unset).ceiling)
unfolding half
delay_within_example = delay_within unset half (pos 40) (λ h p. omega arith)

window_doubles_example :
    window (record { base = pos 500000000; ceiling = pos 30000000000 }) (pos 4)
    ≡ pos (min (500000000 * 2 ^ min 3 32) 30000000000)
window_doubles_example = window_doubles 500000000 3 30000000000 (omega arith) (omega arith)

strokes : ℕ → String
strokes zero = ""
strokes (suc n) = String.◌∷◌ "1" (strokes n)

count-strokes : (n : ℕ) → String.count (strokes n) ≡ n
unfolding strokes
count-strokes zero = count.nil
count-strokes (suc n) = count.cons "1" (strokes n) ∙ ap suc (count-strokes n)

abbrev index : ℤ → ℕ
index (pos n) = 2 * n
index (negsuc n) = suc (2 * n)

tally : ℤ → String
unfolding strokes
tally a = strokes (index a)

index-IsCanonical : (a b : ℤ) → (index a ≡ index b) ↔ (equal a b ≡ true)
index-IsCanonical (pos m) (pos n) = ground arith
index-IsCanonical (pos m) (negsuc n) = ground arith
index-IsCanonical (negsuc m) (pos n) = ground arith
index-IsCanonical (negsuc m) (negsuc n) = ground arith

tally-IsCanonical : IsCanonical tally
unfolding tally
tally-IsCanonical a b =
    let same = index-IsCanonical a b in
    (
      λ e. same.0 (sym (count-strokes (index a)) ∙ ap String.count e ∙ count-strokes (index b)),
      λ e. ap strokes (same.1 e),
    )

abbrev updates : List (String × ℤ × ℤ)
updates = ("bid", pos 1, pos 5) ∷ ("bid", pos 2, pos 4) ∷ ("offer", pos 3, pos 6) ∷ []

abbrev low_bid : Level ℤ
low_bid = record { px = pos 1; qty = pos 5 }

abbrev high_bid : Level ℤ
high_bid = record { px = pos 2; qty = pos 4 }

abbrev ask : Level ℤ
ask = record { px = pos 3; qty = pos 6 }

top_perm_example :
    (top (apply_all tally new_book updates) "bid" 1 ≡ best_first true (high_bid ∷ low_bid ∷ []) 1)
    × (top (apply_all tally new_book updates) "offer" 1 ≡ best_first false (ask ∷ []) 1)
unfolding apply_all apply apply_to side_map set_level insert values tally strokes
top_perm_example =
    top_perm whole-OrderLaws tally tally-IsCanonical updates (high_bid ∷ low_bid ∷ []) (ask ∷ []) 1
      (Permᴰ.swap refl refl) (Permᴰ.cons refl Permᴰ.nil)

abbrev two_bids : Book ℤ
two_bids = record { bids = ("a", low_bid) ∷ ("b", high_bid) ∷ []; asks = ("c", ask) ∷ [] }

best-top_example :
    All (λ l. greater_than l.px (pos 2) ≡ false) (values two_bids.bids)
    × All (λ l. less_than l.px (pos 3) ≡ false) (values two_bids.asks)
unfolding top best_first best sort insert_sorted values
best-top_example = best-top whole-OrderLaws two_bids 0 (pos 2) (pos 3) refl refl

parse : String → Option ℤ
parse s = some (pos 7)

abbrev message : String → Message
message kind = record {
  recv_ts = 1000;
  events = some (
      record {
        product_id = "ETH";
        type = kind;
        updates = record { side = "bid"; price_level = "7"; new_quantity = "7" } ∷ [];
      }
      ∷ []);
}

abbrev session : List Op
session = handles (message "snapshot") ∷ ticks 1010 ∷ ticks 1015 ∷ ticks 1020 ∷ []

run-rising_example :
    AllPairs (λ r q. q.ts < r.ts) (run tally parse (new_handler "ETH" 10, []) session).1
run-rising_example = run-rising tally parse "ETH" 10 session

run-silent_example :
    (run tally parse
      (new_handler "ETH" 10, [])
      (handles (message "update") ∷ resets ∷ ticks 1010 ∷ [])).1
    ≡ []
unfolding new_handler
run-silent_example =
    run-silent tally parse (new_handler "ETH" 10) []
      (handles (message "update") ∷ resets ∷ ticks 1010 ∷ []) refl
      (((λ e. λ t. cc), tt), (tt, (tt, tt)))

abbrev trade : ℕ → TradeSample ℤ
trade at = record { at = at; px = pos 2400; sz = pos 2; side = side_buy }

count_sweeps_le_example :
    2 * count_sweeps (trade 100 ∷ trade 200 ∷ []) ≤ length (trade 100 ∷ trade 200 ∷ [])
count_sweeps_le_example = count_sweeps_le (trade 100 ∷ trade 200 ∷ []) (omega arith)

aggregate_perm_example :
    aggregate "ETH" 60 (pos 60) (trade 200 ∷ trade 100 ∷ [])
    ≡ aggregate "ETH" 60 (pos 60) (trade 100 ∷ trade 200 ∷ [])
aggregate_perm_example =
    aggregate_perm "ETH" 60 (pos 60) (trade 200 ∷ trade 100 ∷ []) (trade 100 ∷ trade 200 ∷ [])
      ((omega arith, tt), (tt, tt)) (Permᴰ.swap refl refl)

count_sweeps_two : count_sweeps (trade 100 ∷ trade 200 ∷ []) ≡ 1
unfolding count_sweeps sweeps_from continues
count_sweeps_two = refl
