-- ===== src/Ingest/Candles/Writing.antt =====
-- internal/ingest/candles.go: what recording a candle and writing the closed ones keep of a product.
use funding_carry.Prelude.{
  ◌+◌, ◌<◌, ◌≤◌, ◌≡◌, ap, sym, ◌∙◌, ◌∷◌, [], List, Option, none, some, ◌++◌, String, true, false,
  not, ◌&&◌, arith, Bool-cases, Option-cases, inl, inr, All,
}
use funding_carry.Prelude.Sort.{AllPairs, All-sort}
use funding_carry.Clock.{Time, is_zero_time, after, before}
use funding_carry.TimeMap
use funding_carry.TimeMap.Laws.{lookup-insert, lookup-delete}
use funding_carry.Decimal.{Decimal}
use funding_carry.Db.Rows.Market.{BarRow}
use funding_carry.Ingest.Trades.Handler.{SinkError}
use funding_carry.Ingest.Candles.{
  ProductCandles, Candle, Written, CandlesError, candle_interval, record_candle, record_candles,
  starts_before, closed, mark_written, jump, bar_or_zero, write_starts, persist,
}
use funding_carry.Ingest.Candles.Pending.{
  member, Ascending, Distinct, Found, insert-Distinct, delete-Distinct, sort-Ascending,
  starts_before-apart, starts_before-Found, starts_before-old, sorted-member,
}

-- A candle that starts after the zero time, whose row is stamped with its end.
pub record IsStamped {D : Type 0} (c : Candle D) : Type 0 where
  pub later : 0 < c.start
  pub stamped : c.row.ts ≡ c.start + candle_interval

-- The candles that are not written start after the last one that is, and the rows fall from it.
pub record IsFresh {D : Type 0} (p : ProductCandles D) (rows : List (BarRow D)) : Type 0 where
  pub distinct : Distinct p.pending
  pub ahead :
      (at : Time) (row : BarRow D)
      → TimeMap.lookup at p.pending ≡ some row
      → (p.last_start < at) × (row.ts ≡ at + candle_interval)
  pub falling : AllPairs (λ (r s : BarRow D). s.ts < r.ts) rows
  pub behind : All (λ (r : BarRow D). r.ts ≤ p.last_start + candle_interval) rows

-- The starts that are left to be written are all those before the newest candle, in order.
pub record IsQueue {D : Type 0} (p : ProductCandles D) (starts : List Time) : Type 0 where
  pub ascending : Ascending starts
  pub found : All (Found p.pending) starts
  pub old : All (λ s. s < p.newest) starts
  pub complete :
      (at : Time) (row : BarRow D)
      → TimeMap.lookup at p.pending ≡ some row
      → before at p.newest ≡ true
      → member at starts ≡ true

above-first :
    (s : Time) (starts : List Time) (at : Time)
    → All (λ t. s < t) starts
    → member at starts ≡ true
    → s < at
above-first s [] at h m = cc
above-first s (t ∷ starts) at h m = ground (arith, h.0, above-first s starts at h.1)

module _ {D : Type 0} where
  record_candle-IsFresh :
      (p : ProductCandles D) (c : Candle D) (rows : List (BarRow D))
      → IsStamped c
      → IsFresh p rows
      → IsFresh (record_candle p c) rows
  unfolding record_candle
  record_candle-IsFresh p c rows s h =
      elim (Bool-cases (not (is_zero_time p.last_start) && not (after c.start p.last_start))) [
        | inl out ↦ rw out h
        | inr new ↦ rw new (record {
          distinct = insert-Distinct c.start c.row p.pending h.distinct;
          ahead = λ at row e.
              ground (
                arith,
                lookup-insert c.start at c.row p.pending,
                h.ahead at row,
                s.later,
                s.stamped,
              );
          falling = h.falling;
          behind = h.behind;
        })
      ]

  pub record_candles-IsFresh :
      (p : ProductCandles D) (candles : List (Candle D)) (rows : List (BarRow D))
      → All IsStamped candles
      → IsFresh p rows
      → IsFresh (record_candles p candles) rows
  unfolding record_candles
  record_candles-IsFresh p [] rows s h = h
  record_candles-IsFresh p (c ∷ candles) rows s h =
      record_candles-IsFresh (record_candle p c) candles rows s.1
        (record_candle-IsFresh p c rows s.0 h)

  pub closed-IsQueue : (p : ProductCandles D) → Distinct p.pending → IsQueue p (closed p)
  unfolding closed
  closed-IsQueue p d = record {
    ascending =
        sort-Ascending (starts_before p.newest p.pending)
          (starts_before-apart p.newest p.pending d);
    found =
        All-sort before (Found p.pending) (starts_before p.newest p.pending)
          (starts_before-Found p.newest p.pending);
    old =
        All-sort before (λ s. s < p.newest) (starts_before p.newest p.pending)
          (starts_before-old p.newest p.pending);
    complete = λ at row e lt. sorted-member p.newest at p.pending row e lt;
  }

  Found-later :
      (s : Time) (m : List (Time × BarRow D)) (starts : List Time)
      → All (λ t. s < t) starts
      → All (Found m) starts
      → All (Found (TimeMap.delete s m)) starts
  Found-later s m [] h f = tt
  Found-later s m (t ∷ starts) h ((row, e), f) =
      ((row, ground (arith, lookup-delete s t m, h.0)), Found-later s m starts h.1 f)

  mark_written-IsQueue :
      (p : ProductCandles D) (s : Time) (starts : List Time)
      → IsQueue p (s ∷ starts)
      → IsQueue (mark_written p s) starts
  unfolding mark_written
  mark_written-IsQueue p s starts q = record {
    ascending = q.ascending.1;
    found = Found-later s p.pending starts q.ascending.0 q.found.1;
    old = q.old.1;
    complete = λ at row e lt. ground (arith, lookup-delete s at p.pending, q.complete at row);
  }

  rows-below :
      (a b : Time) (rows : List (BarRow D))
      → a < b
      → All (λ (r : BarRow D). r.ts ≤ a + candle_interval) rows
      → All (λ (r : BarRow D). r.ts < b + candle_interval) rows
        × All (λ (r : BarRow D). r.ts ≤ b + candle_interval) rows
  rows-below a b [] lt h = (tt, tt)
  rows-below a b (r ∷ rows) lt h =
      let rest = rows-below a b rows lt h.1 in
      ((omega (arith, h.0), rest.0), (omega (arith, h.0), rest.1))

  mark_written-IsFresh :
      (p : ProductCandles D) (s : Time) (starts : List Time) (row : BarRow D)
      (rows : List (BarRow D))
      → TimeMap.lookup s p.pending ≡ some row
      → IsQueue p (s ∷ starts)
      → IsFresh p rows
      → IsFresh (mark_written p s) (row ∷ rows)
  unfolding mark_written
  mark_written-IsFresh p s starts row rows e q h =
      let (lt, stamp) = h.ahead s row e in
      let below = rows-below p.last_start s rows lt h.behind in
      record {
        distinct = delete-Distinct s p.pending h.distinct;
        ahead = λ at r f. ground (
          arith,
          lookup-delete s at p.pending,
          h.ahead at r,
          q.complete at r,
          above-first s starts at q.ascending.0,
          q.old.0,
        );
        falling = (rw stamp below.0, h.falling);
        behind = (rw stamp (omega arith), below.1);
      }

module _ {D : Type 0} ⦃dec : Decimal D⦄ (sink : BarRow D → Option SinkError) (name : String) where
  -- The product and the rows are in order whether or not the sink fails; if it does not, no candle
  -- before the newest is left.
  pub record IsSettled (w : Written D) (newest : Time) : Type 0 where
    pub fresh : IsFresh w.product w.rows
    pub settled :
        w.failure ≡ none
        → (at : Time) (row : BarRow D) → TimeMap.lookup at w.product.pending ≡ some row
        → before at newest ≡ false

  write_starts-IsSettled :
      (p : ProductCandles D) (rows : List (BarRow D)) (errs : List CandlesError)
      (starts : List Time)
      → IsQueue p starts
      → IsFresh p rows
      → IsSettled (write_starts sink name p rows errs starts) p.newest
  unfolding write_starts mark_written
  write_starts-IsSettled p rows errs [] q h = record {
    fresh = record {
      distinct = h.distinct;
      ahead = h.ahead;
      falling = h.falling;
      behind = h.behind;
    };
    settled = λ _ at row e. ground (arith, q.complete at row);
  }
  write_starts-IsSettled p rows errs (s ∷ starts) q h =
      let row = bar_or_zero (TimeMap.lookup s p.pending) in
      let (held, e) = q.found.0 in
      let found : TimeMap.lookup s p.pending ≡ some row = e ∙ ap some (sym (ap bar_or_zero e)) in
      elim (Option-cases (sink row)) [
        | inl taken ↦
            rw (write_starts, taken)
              (write_starts-IsSettled (mark_written p s) (row ∷ rows) (errs ++ jump name p s) starts
                (mark_written-IsQueue p s starts q)
                (mark_written-IsFresh p s starts row rows found q h))
        | inr (failure, refused) ↦
            rw (write_starts, refused) (record { fresh = h; settled = λ z. cc })
      ]

  pub persist-IsSettled :
      (p : ProductCandles D) (candles : List (Candle D)) (rows : List (BarRow D))
      → All IsStamped candles
      → IsFresh p rows
      → IsSettled (persist sink name p candles rows) (record_candles p candles).newest
  unfolding persist
  persist-IsSettled p candles rows s h =
      let fresh = record_candles-IsFresh p candles rows s h in
      write_starts-IsSettled (record_candles p candles) rows [] (closed (record_candles p candles))
        (closed-IsQueue (record_candles p candles) fresh.distinct) fresh
