-- ===== src/Ingest/VenueState.antt =====
-- internal/ingest/venuestate.go, with the Session of rest.go: what the sampler of the venue state is told,
-- and the columns of a row. The mutex makes each call a step; `shut` is Contains of the maintenance window.
pub mod Sample
pub mod Feeds
use funding_carry.Prelude.{
  ℕ, ◌+◌, ◌*◌, List, [], ◌∷◌, ◌++◌, Option, none, some, String, Bool, true, false, not, ◌&&◌, ◌||◌,
  if◌then◌else◌,
}
use funding_carry.Prelude.Int.{ℤ, pos, ltb_ℤ}
use funding_carry.Prelude.Text.{str_eq}
use funding_carry.Clock.{Time, Duration, truncate, is_zero_time, time_sub}
use funding_carry.Dict
use funding_carry.Decimal.{Decimal, is_zero}
use funding_carry.Db.Rows.Market.{VenueStateRow}
use funding_carry.Ingest.Level2.{HandleError}
use funding_carry.Ingest.Trades.Handler.{SinkError}
use funding_carry.Ingest.Funding.{Funding, hours_per_year, hour_ns, sample_interval}
use funding_carry.Ingest.Marks.{Quote, Marks, midpoint, observe_quote}

pub record Session : Type 0 where
  pub is_open : Bool
  pub state : String
  pub open_time : Time
  pub close_time : Time

pub record FundingObservation (D : Type 0) : Type 0 where
  pub funding : Funding D
  pub source : String

pub record MarkObservation (D : Type 0) : Type 0 where
  pub futures : Option D
  pub spot : Option D
  pub premium : Option D
  pub at : Time

pub record VenueFundingObservation (D : Type 0) : Type 0 where
  pub rate : Option D
  pub at : Time
  pub seen : Time

pub record VenueState (D : Type 0) : Type 0 where
  pub perp_product : String
  pub spot_product : String
  pub interval : ℕ
  pub quotes : List (String × Quote D)
  pub perp_online : Bool
  pub status_seen : Bool
  pub funding : List (String × FundingObservation D)
  pub marks : List (String × MarkObservation D)
  pub open_ints : List (String × Option D)
  pub venue_funding : List (String × VenueFundingObservation D)
  pub session : Session
  pub session_seen : Time
  pub last_boundary : Time

abbrev pub max_quote_age : ℕ
max_quote_age = 3

abbrev pub max_mark_age : ℕ
max_mark_age = 2 * sample_interval

abbrev pub max_funding_age : ℕ
max_funding_age = 2 * hour_ns

abbrev pub max_session_age : ℕ
max_session_age = 60000000000

-- at.Sub(seen) <= limit.
abbrev pub within : Time → Time → ℕ → Bool
within at seen limit = not (ltb_ℤ (pos limit) (time_sub at seen))

-- The wait from a time for the next boundary.
unfoldable pub until_next_boundary : Time → ℕ → Duration
until_next_boundary t interval = time_sub (truncate t interval + interval) t

abbrev pub is_some : {A : Type 0} → Option A → Bool
is_some none = false
is_some (some a) = true

module _ {D : Type 0} where
  unfoldable pub new_venue_state : String → String → ℕ → VenueState D
  new_venue_state perp spot interval = record {
    perp_product = perp;
    spot_product = spot;
    interval = interval;
    quotes = [];
    perp_online = false;
    status_seen = false;
    funding = [];
    marks = [];
    open_ints = [];
    venue_funding = [];
    session = record { is_open = false; state = ""; open_time = 0; close_time = 0 };
    session_seen = 0;
    last_boundary = 0;
  }

  unfoldable pub observe : VenueState D → String → Quote D → VenueState D
  observe v product q = record v { quotes = Dict.insert product q v.quotes }

  unfoldable pub observe_funding : VenueState D → String → Funding D → String → VenueState D
  observe_funding v product f source = record v {
    funding = Dict.insert product (record { funding = f; source = source }) v.funding;
  }

  unfoldable pub observe_session : VenueState D → String → Session → Time → VenueState D
  observe_session v product s now =
      if not (str_eq product v.perp_product)
      then v
      else record v { session = s; session_seen = now }

  unfoldable pub observe_venue_funding :
      VenueState D → String → Option D → Time → Time → VenueState D
  observe_venue_funding v product none at seen = v
  observe_venue_funding v product (some rate) at seen = record v {
    venue_funding =
        Dict.insert product (record { rate = some rate; at = at; seen = seen }) v.venue_funding;
  }

  unfoldable pub observe_open_interest : VenueState D → String → Option D → VenueState D
  observe_open_interest v product oi = record v { open_ints = Dict.insert product oi v.open_ints }

  unfoldable pub observe_status : VenueState D → String → Bool → VenueState D
  observe_status v product online =
      if not (str_eq product v.perp_product)
      then v
      else record v { perp_online = online; status_seen = true }

  abbrev pub session_fresh : VenueState D → Time → Bool
  session_fresh v at = not (is_zero_time v.session_seen) && within at v.session_seen max_session_age

  unfoldable pub in_maintenance : (Time → Bool) → VenueState D → Time → Time → Bool
  in_maintenance shut v ts at =
      shut ts
      || (v.status_seen && not v.perp_online)
      || (session_fresh v at && not v.session.is_open)

  abbrev pub fresh_quote : VenueState D → Time → Option (Quote D) → Option (Quote D)
  fresh_quote v at none = none
  fresh_quote v at (some q) = if within at q.at (max_quote_age * v.interval) then some q else none

module _ {D : Type 0} ⦃dec : Decimal D⦄ where
  unfoldable pub observe_marks : VenueState D → String → D → D → Time → VenueState D
  observe_marks v product futures spot at = record v {
    marks =
        Dict.insert product
          (record {
            futures = some futures;
            spot = some spot;
            premium =
                if not (is_zero spot) then some (dec.div (dec.sub futures spot) spot) else none;
            at = at;
          })
          v.marks;
  }

  unfoldable pub spread_bps : Quote D → Option D → Option D
  spread_bps q none = none
  spread_bps q (some mid) = elim q.bid [
    | none ↦ none
    | some b ↦ elim q.ask [
      | none ↦ none
      | some a ↦
          if is_zero mid
          then none
          else some (dec.mul (dec.div (dec.sub a b) mid) (dec.from_int (pos 10000)))
    ]
  ]

  abbrev pub blank_row : String → Time → VenueStateRow D
  blank_row product ts = record {
    ts = ts;
    product_id = product;
    futures_mark = none;
    spot_mark = none;
    mid = none;
    funding_rate_hourly = none;
    funding_rate_est = none;
    funding_source = "";
    funding_annualized = none;
    premium_proxy = none;
    spread_bps = none;
    open_interest = none;
    maintenance_window = false;
  }

  abbrev pub with_quote : Option (Quote D) → VenueStateRow D → VenueStateRow D
  with_quote none row = row
  with_quote (some q) row = record row { mid = midpoint q; spread_bps = spread_bps q (midpoint q) }

  abbrev pub with_marks : Time → Option (MarkObservation D) → VenueStateRow D → VenueStateRow D
  with_marks at none row = row
  with_marks at (some mk) row =
      if within at mk.at max_mark_age
      then record row { futures_mark = mk.futures; spot_mark = mk.spot; premium_proxy = mk.premium }
      else row

  abbrev pub with_funding : Time → Option (FundingObservation D) → VenueStateRow D → VenueStateRow D
  with_funding at none row = row
  with_funding at (some fo) row =
      if within at fo.funding.hour_start max_funding_age
      then record row {
        funding_rate_est = some fo.funding.rate;
        funding_rate_hourly = some fo.funding.rate;
        funding_source = fo.source;
        funding_annualized = some fo.funding.annualized;
      }
      else row

  abbrev pub yearly : Option D → D
  yearly none = dec.mul dec.zero hours_per_year
  yearly (some rate) = dec.mul rate hours_per_year

  abbrev pub with_venue_funding :
      Time → Option (VenueFundingObservation D) → VenueStateRow D → VenueStateRow D
  with_venue_funding at none row = row
  with_venue_funding at (some vf) row =
      if within at vf.seen max_funding_age
      then record row {
        funding_rate_hourly = vf.rate;
        funding_source = "venue";
        funding_annualized = some (yearly vf.rate);
      }
      else row

  abbrev pub with_open_interest :
      VenueState D → Time → Option (Option D) → VenueStateRow D → VenueStateRow D
  with_open_interest v at none row = row
  with_open_interest v at (some oi) row =
      if session_fresh v at then record row { open_interest = oi } else row

  unfoldable pub apply_part_five : VenueState D → String → Time → VenueStateRow D → VenueStateRow D
  apply_part_five v product at row = with_open_interest v at (Dict.lookup product v.open_ints) (
      with_venue_funding at (Dict.lookup product v.venue_funding) (
        with_funding at (Dict.lookup product v.funding)
          (with_marks at (Dict.lookup product v.marks) row)))
