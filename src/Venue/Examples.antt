-- ===== src/Venue/Examples.antt =====
-- The theorems on the read model at concrete refreshes, with a row that is its own timestamp.
use funding_carry.Prelude.{ℕ, [], ◌∷◌, true, ◌≡◌, ◌↔◌, refl}
use funding_carry.Prelude.Int.{pos}
use funding_carry.Venue.{Row, failed, read, Rows, Answers, feed_ok, trade_ok}
use funding_carry.Venue.History.{state, SeesMarket, SeesHoldings, feed_ok-run, trade_ok-run}

abbrev stamp : Row ℕ
stamp = record { none = 0; ts = λ t. t; ts-none = refl }

abbrev rows : Rows ℕ ℕ ℕ ℕ
rows = record { venue = stamp; account = stamp; base = stamp; no_product = 0 }

abbrev all_read : Answers ℕ ℕ ℕ ℕ
all_read = record {
  perp = read 990 true;
  spot = read 995 true;
  account = read 980 true;
  wallet = read 985 true;
  product = read 7 true;
  now = 1000;
}

abbrev database_down : Answers ℕ ℕ ℕ ℕ
database_down = record {
  perp = failed;
  spot = failed;
  account = failed;
  wallet = failed;
  product = failed;
  now = 1010;
}

feed_ok-run_example :
    (feed_ok (state rows (pos 20) (all_read ∷ []) database_down).staleness ≡ true)
    ↔ SeesMarket rows (pos 20) (all_read ∷ []) database_down
feed_ok-run_example = feed_ok-run rows (pos 20) (all_read ∷ []) database_down

trade_ok-run_example :
    (trade_ok (state rows (pos 20) (all_read ∷ []) database_down).staleness ≡ true)
    ↔ SeesMarket rows (pos 20) (all_read ∷ []) database_down
      × SeesHoldings rows (pos 20) (all_read ∷ []) database_down
trade_ok-run_example = trade_ok-run rows (pos 20) (all_read ∷ []) database_down
