-- ===== src/Ingest/Trades.antt =====
-- internal/ingest/trades.go: the reduction of one bucket of trades to its row.
-- An int32 counter is its 32 bits, as a natural number.
pub mod Sweeps
pub mod Arrangement
pub mod Handler
pub mod Tick
pub mod Closing
pub mod History
pub mod Products
pub mod Ticking
pub mod Induction
pub mod Rising
pub mod Windows
pub mod Repeats
mod Examples
use funding_carry.Prelude.{
  ℕ, suc, ◌%◌, ◌^◌, List, [], ◌∷◌, Option, none, some, String, Bool, true, false, not, ◌&&◌, length,
  ◌==◌, if◌then◌else◌,
}
use funding_carry.Prelude.Int.{ℤ, pos, negsuc, ltb_ℤ}
use funding_carry.Prelude.Text.{str_eq}
use funding_carry.Prelude.Sort.{sort}
use funding_carry.Clock.{Time, Duration, before, time_sub}
use funding_carry.Db.Rows.Market.{TradesAggRow}
use funding_carry.Decimal.{Decimal, greater_than, is_zero}

pub data Aggressor : Type 0 where
  side_unknown side_buy side_sell : Aggressor

pub record TradeSample (D : Type 0) : Type 0 where
  pub at : Time
  pub px : D
  pub sz : D
  pub side : Aggressor

-- Nothing for a side outside the venue's vocabulary, which is an error.
unfoldable pub parse_aggressor : String → Option Aggressor
parse_aggressor side =
    if str_eq side "BUY"
    then some side_buy
    else if str_eq side "SELL"
    then some side_sell
    else if str_eq side "UNKNOWN_ORDER_SIDE"
    then some side_unknown
    else none

abbrev pub max_int32 : ℤ
max_int32 = pos 2147483647

abbrev pub min_int32 : ℤ
min_int32 = negsuc 2147483647

unfoldable pub clamp_int32 : ℤ → ℤ
clamp_int32 n = if ltb_ℤ max_int32 n then max_int32 else if ltb_ℤ n min_int32 then min_int32 else n

-- 250 milliseconds.
abbrev pub sweep_window : Duration
sweep_window = pos 250000000

abbrev pub min_sweep_trades : ℕ
min_sweep_trades = 2

abbrev pub same_side : Aggressor → Aggressor → Bool
same_side side_buy side_buy = true
same_side side_sell side_sell = true
same_side side_unknown side_unknown = true
same_side _ _ = false

abbrev pub is_known : Aggressor → Bool
is_known side_unknown = false
is_known _ = true

abbrev pub next_int32 : ℕ → ℕ
next_int32 n = suc n % 2 ^ 32

module _ {D : Type 0} where
  -- Whether a trade goes on with the run of the one before it, if there is one.
  unfoldable pub continues : Option (TradeSample D) → TradeSample D → Bool
  continues none t = false
  continues (some p) t =
      is_known t.side && same_side p.side t.side && not (ltb_ℤ sweep_window (time_sub t.at p.at))

  -- The loop of countSweeps, after the trade `last`.
  unfoldable pub sweeps_from : Option (TradeSample D) → ℕ → ℕ → List (TradeSample D) → ℕ
  sweeps_from last run sweeps [] = sweeps
  sweeps_from last run sweeps (t ∷ ts) =
      let run' = if continues last t then next_int32 run else 1 in
      let sweeps' =
        if continues last t && (run' == min_sweep_trades) then next_int32 sweeps else sweeps in
      sweeps_from (some t) run' sweeps' ts

  unfoldable pub count_sweeps : List (TradeSample D) → ℕ
  count_sweeps trades = sweeps_from none 0 0 trades

  abbrev pub earlier : TradeSample D → TradeSample D → Bool
  earlier t u = before t.at u.at

-- The accumulators of aggregate's loop.
pub record Sums (D : Type 0) : Type 0 where
  pub notional : D
  pub volume : D
  pub max_size : D
  pub buy_vol : D
  pub sell_vol : D

module _ {D : Type 0} ⦃dec : Decimal D⦄ where
  abbrev pub add_trade : Sums D → TradeSample D → Sums D
  add_trade s t = record {
    notional = dec.add s.notional (dec.mul t.px t.sz);
    volume = dec.add s.volume t.sz;
    max_size = if greater_than t.sz s.max_size then t.sz else s.max_size;
    buy_vol = if same_side t.side side_buy then dec.add s.buy_vol t.sz else s.buy_vol;
    sell_vol = if same_side t.side side_sell then dec.add s.sell_vol t.sz else s.sell_vol;
  }

  unfoldable pub add_trades : Sums D → List (TradeSample D) → Sums D
  add_trades s [] = s
  add_trades s (t ∷ ts) = add_trades (add_trade s t) ts

  abbrev pub no_sums : Sums D
  no_sums = record {
    notional = dec.zero;
    volume = dec.zero;
    max_size = dec.zero;
    buy_vol = dec.zero;
    sell_vol = dec.zero;
  }

  -- The row of a bucket of trades that are in time order.
  unfoldable pub aggregate_sorted : String → Time → ℤ → List (TradeSample D) → TradesAggRow D
  aggregate_sorted product end bucket_secs trades =
      let s = add_trades no_sums trades in
      record {
        ts = end;
        product_id = product;
        bucket_secs = bucket_secs;
        buy_vol = s.buy_vol;
        sell_vol = s.sell_vol;
        trade_count = clamp_int32 (pos (length trades));
        vwap = if is_zero s.volume then none else some (dec.div s.notional s.volume);
        max_single_sz = some s.max_size;
        sweep_count = some (count_sweeps trades);
      }

  -- `aggregate`; no trades stand for a bucket that was never opened, too.
  unfoldable pub aggregate : String → Time → ℤ → List (TradeSample D) → TradesAggRow D
  aggregate product end bucket_secs [] = record {
    ts = end;
    product_id = product;
    bucket_secs = bucket_secs;
    buy_vol = dec.zero;
    sell_vol = dec.zero;
    trade_count = pos 0;
    vwap = none;
    max_single_sz = none;
    sweep_count = some 0;
  }
  aggregate product end bucket_secs (t ∷ ts) =
      aggregate_sorted product end bucket_secs (sort earlier (t ∷ ts))
