-- ===== src/Ingest/Trades/Handler.antt =====
-- internal/ingest/trades.go: TradesHandler. The JSON of a message is decoded by encoding/json; a message
-- here is the trades that come out of it, or nothing where it fails. `sink` is what Submit answers to a
-- row, `parse` is decimal.NewFromString. A row goes to the marks, if there are any, as it goes to the sink.
use funding_carry.Prelude.{
  ℕ, ◌/◌, ◌∷◌, [], ◌++◌, List, Option, none, some, String, Bool, true, false, not, ◌&&◌, ◌||◌,
  if◌then◌else◌,
}
use funding_carry.Prelude.Int.{ℤ, pos}
use funding_carry.Prelude.Text.{str_eq}
use funding_carry.Clock.{Time, is_zero_time, after, before, truncate}
use funding_carry.Dict
use funding_carry.TimeMap
use funding_carry.Ingest.Level2.{HandleError, require_decimal}
use funding_carry.Ingest.Trades.{TradeSample, Aggressor, parse_aggressor, clamp_int32}

-- 2 seconds.
abbrev pub late_grace : ℕ
late_grace = 2000000000

pub record TradeBucket (D : Type 0) : Type 0 where
  pub trades : List (TradeSample D)
  pub seen : List String

-- `next` is zero before admission.
pub record ProductTrades (D : Type 0) : Type 0 where
  pub next : Time
  pub open_buckets : List (Time × TradeBucket D)
  pub batch_max : Time
  pub lost_from : Time

pub record TradesHandler (D : Type 0) : Type 0 where
  pub products : List String
  pub interval : ℕ
  pub bucket_secs : ℤ
  pub state : List (String × ProductTrades D)

-- wire.go's tradeWire.
pub record TradeWire : Type 0 where
  pub trade_id : String
  pub product_id : String
  pub price : String
  pub size : String
  pub side : String
  pub time : Time

pub data TradesError : Type 0 where
  undecoded : TradesError
  bad_trade : String → String → List HandleError → TradesError
  regressed : String → Time → Time → TradesError
  dropped : String → Time → Time → TradesError

pub data SinkError : Type 0 where
  writer_gone refused : SinkError

abbrev pub contains : String → List String → Bool
contains id [] = false
contains id (seen ∷ others) = if str_eq seen id then true else contains id others

abbrev pub new_product : {D : Type 0} → ProductTrades D
new_product = record { next = 0; open_buckets = []; batch_max = 0; lost_from = 0 }

module _ {D : Type 0} where
  unfoldable pub add_products : List String → List (String × ProductTrades D)
  add_products [] = []
  add_products (p ∷ ps) = Dict.insert p new_product (add_products ps)

  unfoldable pub new_trades_handler : List String → ℕ → TradesHandler D
  unfolding add_products
  new_trades_handler products interval = record {
    products = products;
    interval = interval;
    bucket_secs = clamp_int32 (pos (interval / 1000000000));
    state = add_products products;
  }

  unfoldable pub reset_product : ProductTrades D → ProductTrades D
  reset_product p = record {
    next = 0;
    open_buckets = [];
    batch_max = 0;
    lost_from = if is_zero_time p.next then p.lost_from else p.next;
  }

  unfoldable pub reset_all : List (String × ProductTrades D) → List (String × ProductTrades D)
  unfolding reset_product
  reset_all [] = []
  reset_all ((product, p) ∷ others) = (product, reset_product p) ∷ reset_all others

  unfoldable pub reset : TradesHandler D → TradesHandler D
  reset h = record h { state = reset_all h.state }

  abbrev pub bucket_or_new : Option (TradeBucket D) → TradeBucket D
  bucket_or_new none = record { trades = []; seen = [] }
  bucket_or_new (some b) = b

  -- A trade that has not been seen joins its bucket.
  unfoldable pub add_to : TradeBucket D → String → TradeSample D → TradeBucket D
  add_to b id t =
      if contains id b.seen then b else record { trades = b.trades ++ t ∷ []; seen = id ∷ b.seen }

  -- The rest of admitTrade, for a trade whose fields are read.
  unfoldable pub file_trade : ℕ → ProductTrades D → String → TradeSample D → ProductTrades D
  file_trade interval p id t =
      let start = truncate t.at interval in
      if is_zero_time p.next || before start p.next then p else record p {
        open_buckets =
            TimeMap.insert start (add_to (bucket_or_new (TimeMap.lookup start p.open_buckets)) id t)
              p.open_buckets;
      }

module _ {D : Type 0} (parse : String → Option D) where
  unfoldable pub admit_sided :
      ℕ
      → ProductTrades D
      → TradeWire
      → D
      → D
      → Option Aggressor
      → ProductTrades D × List HandleError
  admit_sided interval p t px sz none = (p, HandleError.malformed "side" t.side ∷ [])
  admit_sided interval p t px sz (some side) =
      (file_trade interval p t.trade_id (record { at = t.time; px = px; sz = sz; side = side }), [])

  unfoldable pub admit_parsed :
      ℕ
      → ProductTrades D
      → TradeWire
      → Option D × List HandleError
      → Option D × List HandleError
      → ProductTrades D × List HandleError
  unfolding admit_sided
  admit_parsed interval p t (none, errs) sz = (p, errs)
  admit_parsed interval p t (some px, es) (none, errs) = (p, errs)
  admit_parsed interval p t (some px, es) (some sz, errs) =
      admit_sided interval p t px sz (parse_aggressor t.side)

  -- admitTrade.
  unfoldable pub admit_trade : ℕ → ProductTrades D → TradeWire → ProductTrades D × List HandleError
  unfolding admit_parsed
  admit_trade interval p t =
      admit_parsed interval p t (require_decimal parse "price" t.price)
        (require_decimal parse "size" t.size)

-- What Handle has so far: the products, the errors, and the newest trade time of each product.
pub record Batch (D : Type 0) : Type 0 where
  pub state : List (String × ProductTrades D)
  pub errors : List TradesError
  pub seen_max : List (String × Time)

abbrev pub or_zero : Option Time → Time
or_zero none = 0
or_zero (some t) = t

abbrev pub raise_max : String → Time → List (String × Time) → List (String × Time)
raise_max product at m =
    if after at (or_zero (Dict.lookup product m)) then Dict.insert product at m else m

module _ {D : Type 0} where
  abbrev pub filed : Batch D → TradeWire → ProductTrades D × List HandleError → Batch D
  filed b t (p, []) = record b {
    state = Dict.insert t.product_id p b.state;
    seen_max = raise_max t.product_id t.time b.seen_max;
  }
  filed b t (p, e ∷ es) = record b {
    errors = b.errors ++ bad_trade t.product_id t.trade_id (e ∷ es) ∷ [];
  }

  -- The part of checkBatchOrder for one product, which is in the state.
  unfoldable pub check_product :
      String
      → Time
      → Option (ProductTrades D)
      → List (String × ProductTrades D)
      → List (String × ProductTrades D) × List TradesError
  check_product product high none state = (state, [])
  check_product product high (some p) state = (
    if after high p.batch_max
        then Dict.insert product (record p { batch_max = high }) state
        else state,
    if not (is_zero_time p.batch_max) && before high p.batch_max
        then regressed product p.batch_max high ∷ []
        else [],
  )

  unfoldable pub check_batch_order :
      List (String × Time)
      → List (String × ProductTrades D)
      → List (String × ProductTrades D) × List TradesError
  check_batch_order [] state = (state, [])
  check_batch_order ((product, high) ∷ others) state =
      let checked = check_product product high (Dict.lookup product state) state in
      let rest = check_batch_order others checked.0 in (rest.0, checked.1 ++ rest.1)

module _ {D : Type 0} (parse : String → Option D) where
  unfoldable pub handle_trade : ℕ → Batch D → TradeWire → Batch D
  handle_trade interval b t = elim (Dict.lookup t.product_id b.state) [
    | none ↦ b
    | some p ↦ filed b t (admit_trade parse interval p t)
  ]

  unfoldable pub handle_trades : ℕ → Batch D → List TradeWire → Batch D
  handle_trades interval b [] = b
  handle_trades interval b (t ∷ ts) = handle_trades interval (handle_trade interval b t) ts

  unfoldable pub handle_decoded :
      TradesHandler D → List TradeWire → TradesHandler D × List TradesError
  handle_decoded h trades =
      let b =
        handle_trades h.interval (record { state = h.state; errors = []; seen_max = [] }) trades in
      let checked = check_batch_order b.seen_max b.state in
      (record h { state = checked.0 }, b.errors ++ checked.1)

  -- Handle; the trades of a message in the order of its events.
  unfoldable pub handle :
      TradesHandler D → Option (List TradeWire) → TradesHandler D × List TradesError
  handle h none = (h, undecoded ∷ [])
  handle h (some trades) = handle_decoded h trades
