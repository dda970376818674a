-- ===== src/Ingest/Level2.antt =====
-- internal/ingest/level2.go, and the decimals of wire.go: the handler of the level2 channel.
-- Parameters: `key` is Decimal.String, `parse` is decimal.NewFromString. The JSON of a message is
-- decoded by encoding/json; a message here is what comes out of it, or nothing where it fails.
pub mod Snapshots
pub mod Readiness
use funding_carry.Prelude.{
  ℕ, List, [], ◌∷◌, ◌++◌, map, Option, none, some, String, Bool, true, false, not, if◌then◌else◌,
}
use funding_carry.Prelude.Int.{ℤ, pos, ltb_ℤ}
use funding_carry.Prelude.Text.{str_eq}
use funding_carry.Clock.{Time, Duration, time_sub, truncate, after}
use funding_carry.Decimal.{Decimal}
use funding_carry.Db.Rows.Market.{BookSnapshotRow}
use funding_carry.Ingest.Book.{
  Level, Book, new_book, apply, top, best, px_and_depth, imbalance, impact_price, book_depth,
}

-- wire.go's l2Level and l2Event; the event time of a level is not read.
pub record L2Level : Type 0 where
  pub side : String
  pub price_level : String
  pub new_quantity : String

pub record L2Event : Type 0 where
  pub product_id : String
  pub type : String
  pub updates : List L2Level

-- Message: its events as decoded, and its receive time.
pub record Message : Type 0 where
  pub recv_ts : Time
  pub events : Option (List L2Event)

pub data HandleError : Type 0 where
  undecoded : HandleError
  malformed : String → String → HandleError
  absent : String → HandleError

-- Level2Quiet: two minutes.
abbrev pub max_book_age : Duration
max_book_age = pos 120000000000

pub record Handler (D : Type 0) : Type 0 where
  pub product : String
  pub interval : ℕ
  pub book : Book D
  pub ready : Bool
  pub last_snap : Time
  pub last_update : Time

-- requireDecimal over parseDecimal: the empty text is absent, not zero.
unfoldable pub require_decimal :
    {D : Type 0} → (String → Option D) → String → String → Option D × List HandleError
require_decimal parse field s =
    if str_eq s ""
    then (none, absent field ∷ [])
    else elim (parse s) [ none ↦ (none, malformed field s ∷ []) | some d ↦ (some d, []) ]

module _ {D : Type 0} where
  unfoldable pub new_handler : String → ℕ → Handler D
  new_handler product interval = record {
    product = product;
    interval = interval;
    book = new_book;
    ready = false;
    last_snap = 0;
    last_update = 0;
  }

  unfoldable pub reset : Handler D → Handler D
  reset h = record h { book = new_book; ready = false; last_update = 0 }

module _ {D : Type 0} ⦃dec : Decimal D⦄ (key : D → String) (parse : String → Option D) where
  apply_parsed :
      Book D
      → L2Level
      → Option D × List HandleError
      → Option D × List HandleError
      → Book D × List HandleError
  apply_parsed b u (none, errs) qty = (b, errs)
  apply_parsed b u (some px, es) (none, errs) = (b, errs)
  apply_parsed b u (some px, es) (some qty, errs) = (apply key b u.side px qty, [])

  unfoldable pub apply_update : Book D → L2Level → Book D × List HandleError
  unfolding apply_parsed
  apply_update b u =
      apply_parsed b u (require_decimal parse "price_level" u.price_level)
        (require_decimal parse "new_quantity" u.new_quantity)

  -- The updates of an event, whose errors do not stop the later ones.
  unfoldable pub apply_updates : Book D → List L2Level → Book D × List HandleError
  apply_updates b [] = (b, [])
  apply_updates b (u ∷ us) =
      let next = apply_update b u in
      let rest = apply_updates next.0 us in (rest.0, next.1 ++ rest.1)

  -- An event of the handler's product.
  unfoldable pub handle_own : Handler D → Time → L2Event → Handler D × List HandleError
  handle_own h recv e =
      let h' = if str_eq e.type "snapshot" then record h { book = new_book; ready = true } else h in
      if not h'.ready
      then (h', [])
      else let applied = apply_updates h'.book e.updates in
        (record h' { book = applied.0; last_update = recv }, applied.1)

  unfoldable pub handle_event : Handler D → Time → L2Event → Handler D × List HandleError
  handle_event h recv e = if str_eq e.product_id h.product then handle_own h recv e else (h, [])

  unfoldable pub handle_events : Handler D → Time → List L2Event → Handler D × List HandleError
  handle_events h recv [] = (h, [])
  handle_events h recv (e ∷ es) =
      let next = handle_event h recv e in
      let rest = handle_events next.0 recv es in (rest.0, next.1 ++ rest.1)

  unfoldable pub handle : Handler D → Message → Handler D × List HandleError
  handle h msg = elim msg.events [
    | none ↦ (h, undecoded ∷ [])
    | some es ↦ handle_events h msg.recv_ts es
  ]

module _ {D : Type 0} ⦃dec : Decimal D⦄ where
  unfoldable pub snapshot : Handler D → Time → BookSnapshotRow D
  snapshot h ts =
      let bids = top h.book "bid" book_depth in
      let asks = top h.book "offer" book_depth in
      let bid = px_and_depth bids in
      let ask = px_and_depth asks in
      record {
        ts = ts;
        product_id = h.product;
        best_bid = best bids;
        best_ask = best asks;
        bid_px = bid.0;
        bid_depth = bid.1;
        ask_px = ask.0;
        ask_depth = ask.1;
        imbalance_top_n = imbalance bids asks;
        impact_bid_px = impact_price bids;
        impact_ask_px = impact_price asks;
      }

  -- `Tick`: the handler after it, and the row it submits, if any.
  unfoldable pub tick : Handler D → Time → Handler D × Option (BookSnapshotRow D)
  tick h now =
      if not h.ready
      then (h, none)
      else if ltb_ℤ max_book_age (time_sub now h.last_update)
      then (h, none)
      else let boundary = truncate now h.interval in
        if not (after boundary h.last_snap)
        then (h, none)
        else (record h { last_snap = boundary }, some (snapshot h boundary))
