-- ===== src/Ingest/Trades/Tick.antt =====
-- internal/ingest/trades.go: Tick, which admits products and closes the buckets that are over.
use funding_carry.Prelude.{
  ℕ, zero, suc, ◌+◌, ◌-◌, ◌∷◌, [], ◌++◌, List, Option, none, some, String, Bool, not, if◌then◌else◌,
}
use funding_carry.Prelude.Int.{ℤ}
use funding_carry.Clock.{Time, is_zero_time, after, truncate}
use funding_carry.Dict
use funding_carry.TimeMap
use funding_carry.Decimal.{Decimal}
use funding_carry.Db.Rows.Market.{TradesAggRow}
use funding_carry.Ingest.Trades.{TradeSample, aggregate}
use funding_carry.Ingest.Trades.Handler.{
  TradeBucket, ProductTrades, TradesHandler, TradesError, dropped, SinkError, late_grace,
}

-- A product after some of its buckets were closed, the rows handed to the sink, the newest first, and
-- the sink's error that ended it, if any.
pub record Closed (D : Type 0) : Type 0 where
  pub product : ProductTrades D
  pub rows : List (TradesAggRow D)
  pub failure : Option SinkError

pub record Ticked (D : Type 0) : Type 0 where
  pub state : List (String × ProductTrades D)
  pub rows : List (TradesAggRow D)
  pub errors : List TradesError
  pub failure : Option SinkError

unfoldable pub elapsed : ℕ → Time → Time → Bool
elapsed interval start now = not (after (start + interval + late_grace) now)

module _ {D : Type 0} where
  abbrev pub trades_of : Option (TradeBucket D) → List (TradeSample D)
  trades_of none = []
  trades_of (some b) = b.trades

  unfoldable pub without_bucket : ℕ → ProductTrades D → ProductTrades D
  without_bucket interval p = record p {
    next = p.next + interval;
    open_buckets = TimeMap.delete p.next p.open_buckets;
  }

  unfoldable pub admit : ℕ → Time → ProductTrades D → ProductTrades D
  admit interval now p = record p { next = truncate now interval + interval; lost_from = 0 }

  abbrev pub lost : String → ProductTrades D → Time → List TradesError
  lost product p next =
      if is_zero_time p.lost_from then [] else dropped product p.lost_from next ∷ []

  abbrev pub closed_into : Ticked D → String → Option (Closed D) → Option (Ticked D)
  closed_into t product none = none
  closed_into t product (some c) = some (record t {
    state = Dict.insert product c.product t.state;
    rows = c.rows;
    failure = c.failure;
  })

  abbrev pub unless_failed : Ticked D → Option (Ticked D) → Option (Ticked D)
  unless_failed t more = elim t.failure [ none ↦ more | some e ↦ some t ]

-- The row of the oldest bucket that is not written.
unfoldable pub bucket_row :
    {D : Type 0} ⦃dec : Decimal D⦄ → ℕ → ℤ → String → ProductTrades D → TradesAggRow D
bucket_row interval secs product p =
    aggregate product (p.next + interval) secs (trades_of (TimeMap.lookup p.next p.open_buckets))

module _ {D : Type 0} ⦃dec : Decimal D⦄ (sink : TradesAggRow D → Option SinkError) where
  -- The loop of Tick over one product's buckets, with closeBucket as its body; nothing if the fuel runs
  -- out.
  unfoldable pub close_due :
      ℕ → ℕ → ℤ → String → Time → ProductTrades D → List (TradesAggRow D) → Option (Closed D)
  close_due zero interval secs product now p rows = none
  close_due (suc fuel) interval secs product now p rows =
      let row = bucket_row interval secs product p in
      let p' = without_bucket interval p in
      let more = close_due fuel interval secs product now p' (row ∷ rows) in
      if elapsed interval p.next now
      then elim (sink row) [
        | none ↦ more
        | some e ↦ some (record { product = p'; rows = row ∷ rows; failure = some e })
      ]
      else some (record { product = p; rows = rows; failure = none })

  -- A round takes `next` on by the interval, so the fuel is enough for a positive one.
  unfoldable pub close_all :
      ℕ → ℤ → String → Time → ProductTrades D → List (TradesAggRow D) → Option (Closed D)
  close_all interval secs product now p rows =
      close_due (suc (now - p.next)) interval secs product now p rows

  -- One product of Tick; nothing for one that is not in the state, which is a nil dereference.
  unfoldable pub tick_product :
      ℕ → ℤ → Time → Ticked D → String → Option (ProductTrades D) → Option (Ticked D)
  tick_product interval secs now t product none = none
  tick_product interval secs now t product (some p) =
      if is_zero_time p.next
      then some (record t {
        state = Dict.insert product (admit interval now p) t.state;
        errors = t.errors ++ lost product p (admit interval now p).next;
      })
      else closed_into t product (close_all interval secs product now p t.rows)

  unfoldable pub tick_products : ℕ → ℤ → Time → List String → Ticked D → Option (Ticked D)
  tick_products interval secs now [] t = some t
  tick_products interval secs now (product ∷ products) t =
      elim (tick_product interval secs now t product (Dict.lookup product t.state)) [
        | none ↦ none
        | some t' ↦ unless_failed t' (tick_products interval secs now products t')
      ]

  -- Tick, on the rows handed over before; a failure discards the other errors.
  unfoldable pub tick : TradesHandler D → Time → List (TradesAggRow D) → Option (Ticked D)
  tick h now rows =
      tick_products h.interval h.bucket_secs now h.products
        (record { state = h.state; rows = rows; errors = []; failure = none })
