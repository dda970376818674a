-- ===== src/Ingest/VenueState/Feeds.antt =====
-- internal/ingest/ticker.go and status.go: the handlers that feed the sampler. A message here is what
-- encoding/json makes of it, or nothing where it fails; `parse` is decimal.NewFromString.
use funding_carry.Prelude.{List, [], ◌∷◌, ◌++◌, Option, none, some, String, not, if◌then◌else◌}
use funding_carry.Prelude.Text.{str_eq}
use funding_carry.Clock.{Time}
use funding_carry.Decimal.{Decimal}
use funding_carry.Ingest.Level2.{HandleError}
use funding_carry.Ingest.Marks.{Quote, Marks, observe_quote}
use funding_carry.Ingest.VenueState.{VenueState, observe, observe_status}

pub record TickerWire : Type 0 where
  pub product_id : String
  pub price : String
  pub best_bid : String
  pub best_ask : String
  pub best_bid_quantity : String
  pub best_ask_quantity : String

pub data FeedError : Type 0 where
  undecoded : FeedError
  bad_ticker : String → List HandleError → FeedError

-- parseDecimal: nothing for the empty text, which is no error.
unfoldable pub parse_decimal :
    {D : Type 0} → (String → Option D) → String → String → Option (Option D) × List HandleError
parse_decimal parse field s = if str_eq s "" then (some none, []) else elim (parse s) [
  | none ↦ (none, HandleError.malformed field s ∷ [])
  | some d ↦ (some (some d), [])
]

abbrev and_then :
    {A B : Type 0}
    → Option A × List HandleError
    → (A → Option B × List HandleError)
    → Option B × List HandleError
and_then (none, errs) next = (none, errs)
and_then (some a, errs) next = next a

module _ {D : Type 0} where
  unfoldable pub quote_from :
      (String → Option D) → TickerWire → Time → Time → Option (Quote D) × List HandleError
  unfolding parse_decimal
  quote_from parse t recv venue = and_then (parse_decimal parse "best_bid" t.best_bid) (λ bid.
      and_then (parse_decimal parse "best_ask" t.best_ask) (λ ask.
        and_then (parse_decimal parse "price" t.price) (λ last.
          (some (record { bid = bid; ask = ask; last = last; at = recv; venue_t = venue }), []))))

-- The sampler, the marks, if there are any, and the errors so far.
pub record TickerState (D : Type 0) : Type 0 where
  pub state : VenueState D
  pub marks : Option (Marks D)
  pub errors : List FeedError

module _ {D : Type 0} ⦃dec : Decimal D⦄ where
  abbrev pub told : Option (Marks D) → String → Quote D → Option (Marks D)
  told none product q = none
  told (some m) product q = some (observe_quote m product q)

  abbrev pub take_quote :
      TickerState D → TickerWire → Option (Quote D) × List HandleError → TickerState D
  take_quote s t (none, errs) = record s { errors = s.errors ++ bad_ticker t.product_id errs ∷ [] }
  take_quote s t (some q, errs) = record s {
    state = observe s.state t.product_id q;
    marks = told s.marks t.product_id q;
  }

  unfoldable pub handle_tickers :
      (String → Option D) → Time → Time → TickerState D → List TickerWire → TickerState D
  unfolding quote_from
  handle_tickers parse recv venue s [] = s
  handle_tickers parse recv venue s (t ∷ ts) =
      handle_tickers parse recv venue (take_quote s t (quote_from parse t recv venue)) ts

  -- Handle of the ticker channel.
  unfoldable pub handle_ticker :
      (String → Option D) → Time → Time → TickerState D → Option (List TickerWire) → TickerState D
  unfolding handle_tickers
  handle_ticker parse recv venue s none = record s { errors = s.errors ++ undecoded ∷ [] }
  handle_ticker parse recv venue s (some ts) = handle_tickers parse recv venue s ts

pub record StatusWire : Type 0 where
  pub id : String
  pub status : String
  pub status_message : String

-- `last` is the status most recently logged.
pub record StatusHandler (D : Type 0) : Type 0 where
  pub product : String
  pub state : VenueState D
  pub last : String

module _ {D : Type 0} where
  unfoldable pub reset_status : StatusHandler D → StatusHandler D
  reset_status h = record h { last = "" }

  unfoldable pub handle_product : StatusHandler D → StatusWire → StatusHandler D
  handle_product h p = if not (str_eq p.id h.product) then h else record h {
    last = p.status;
    state = observe_status h.state p.id (str_eq p.status "online");
  }

  unfoldable pub handle_products : StatusHandler D → List StatusWire → StatusHandler D
  handle_products h [] = h
  handle_products h (p ∷ ps) = handle_products (handle_product h p) ps

  -- Handle of the status channel, over the products of the message.
  unfoldable pub handle_status :
      StatusHandler D → Option (List StatusWire) → StatusHandler D × List FeedError
  unfolding handle_products
  handle_status h none = (h, undecoded ∷ [])
  handle_status h (some ps) = (handle_products h ps, [])
