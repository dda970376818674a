-- ===== src/Venue.antt =====
-- internal/venue/state.go: carry's read model, the newest row of each source with its age.
-- The rows are internal/db's; of them the cache reads the timestamp, so they are types here, each
-- with its timestamp and its zero value.
pub mod History
pub mod Loop
mod Examples
use funding_carry.Prelude.{List, [], ◌∷◌, ◌++◌, Bool, true, false, not, ◌&&◌, if◌then◌else◌, ◌≡◌}
use funding_carry.Prelude.Int.{pos, ltb_ℤ}
use funding_carry.Clock.{Time, Duration, is_zero_time, time_sub}

pub data Source : Type 0 where
  perp spot account wallet : Source

pub record Freshness : Type 0 where
  pub at : Time
  pub age : Duration
  pub missing : Bool
  pub stale : Bool

pub record Staleness : Type 0 where
  pub perp : Freshness
  pub spot : Freshness
  pub account : Freshness
  pub wallet : Freshness

-- `Of`, for the four sources that a value of the type can be.
unfoldable pub of : Staleness → Source → Freshness
of s perp = s.perp
of s spot = s.spot
of s account = s.account
of s wallet = s.wallet

unfoldable pub feed_ok : Staleness → Bool
feed_ok s = not s.perp.stale && not s.spot.stale

unfoldable pub trade_ok : Staleness → Bool
trade_ok s = feed_ok s && not s.account.stale && not s.wallet.stale

unfoldable pub freshness : Time → Time → Duration → Freshness
freshness at now limit =
    if is_zero_time at
    then record { at = 0; age = pos 0; missing = true; stale = true }
    else record {
      at = at;
      age = time_sub now at;
      missing = false;
      stale = ltb_ℤ limit (time_sub now at);
    }

-- A row type of internal/db: its zero value, which has the zero time, and its timestamp.
pub record Row (R : Type 0) : Type 0 where
  pub none : R
  pub ts : R → Time
  pub ts-none : ts none ≡ 0

-- What the store answers for one source: an error, or a row with whether there is one.
pub data Answer (R : Type 0) : Type 0 where
  failed : Answer R
  read : R → Bool → Answer R

abbrev pub row_or_none : {R : Type 0} → Row R → R → Bool → R
row_or_none kind row ok = if ok then row else kind.none

-- One source's row after its reading: the last one, if the reading failed.
abbrev pub take_answer : {R : Type 0} → Row R → R → Answer R → R
take_answer kind last failed = last
take_answer kind last (read row ok) = row_or_none kind row ok

pub data Failure : Type 0 where
  of_source : Source → Failure
  of_product : Failure

abbrev failures : {R : Type 0} → Failure → Answer R → List Failure
failures f failed = f ∷ []
failures f (read row ok) = []

pub record State (V A B P : Type 0) : Type 0 where
  pub refreshed_at : Time
  pub perp : V
  pub spot : V
  pub account : A
  pub wallet : B
  pub product : P
  pub product_known : Bool
  pub staleness : Staleness

-- The row types: VenueStateRow, AccountStateRow, BaseStateRow, and the zero ProductRow.
pub record Rows (V A B P : Type 0) : Type 0 where
  pub venue : Row V
  pub account : Row A
  pub base : Row B
  pub no_product : P

-- The five answers of one refresh, and the clock after the last of them.
pub record Answers (V A B P : Type 0) : Type 0 where
  pub perp : Answer V
  pub spot : Answer V
  pub account : Answer A
  pub wallet : Answer B
  pub product : Answer P
  pub now : Time

abbrev take_product : {P : Type 0} → P → P × Bool → Answer P → P × Bool
take_product no_product last failed = last
take_product no_product last (read row ok) = (if ok then row else no_product, ok)

module _ {V A B P : Type 0} (rows : Rows V A B P) where
  unfoldable pub staleness : State V A B P → Time → Duration → Staleness
  staleness s now limit = record {
    perp = freshness (rows.venue.ts s.perp) now limit;
    spot = freshness (rows.venue.ts s.spot) now limit;
    account = freshness (rows.account.ts s.account) now limit;
    wallet = freshness (rows.base.ts s.wallet) now limit;
  }

  abbrev pub no_state : State V A B P
  no_state = record {
    refreshed_at = 0;
    perp = rows.venue.none;
    spot = rows.venue.none;
    account = rows.account.none;
    wallet = rows.base.none;
    product = rows.no_product;
    product_known = false;
    staleness =
        let fresh : Freshness = record { at = 0; age = pos 0; missing = false; stale = false } in
        record { perp = fresh; spot = fresh; account = fresh; wallet = fresh };
  }

  -- `New`: the state of a cache before its first refresh.
  unfoldable pub new : Duration → State V A B P
  new limit = record no_state { staleness = staleness no_state 0 limit }

  -- `Refresh`: the next state, and the errors that it returns joined.
  unfoldable pub refresh : Duration → State V A B P → Answers V A B P → State V A B P × List Failure
  refresh limit last a =
      let product = take_product rows.no_product (last.product, last.product_known) a.product in
      let next = record last {
        perp = take_answer rows.venue last.perp a.perp;
        spot = take_answer rows.venue last.spot a.spot;
        account = take_answer rows.account last.account a.account;
        wallet = take_answer rows.base last.wallet a.wallet;
        product = product.0;
        product_known = product.1;
        refreshed_at = a.now;
      } in
      (
        record next { staleness = staleness next a.now limit },
        failures (of_source Source.perp) a.perp
            ++ failures (of_source Source.spot) a.spot
            ++ failures (of_source Source.account) a.account
            ++ failures (of_source Source.wallet) a.wallet
            ++ failures of_product a.product,
      )

  -- The refreshes of a tick loop.
  unfoldable pub run : Duration → State V A B P → List (Answers V A B P) → State V A B P
  run limit s [] = s
  run limit s (a ∷ later) = run limit (refresh limit s a).0 later
