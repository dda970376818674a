-- ===== src/Db/Rows.antt =====
-- internal/db/rows.go: the closed set of rows that the writer takes. D is the type of decimals and S
-- that of JSON snapshots (snapshot.go).
pub mod Values
pub mod Market
pub mod Account
pub mod Trading
pub mod Alignment
use funding_carry.Prelude.{ℕ, List, [], ◌∷◌}
use funding_carry.Db.Rows.Values.{Shape, Value}
use funding_carry.Db.Rows.Market.{
  VenueStateRow, BarRow, BookSnapshotRow, TradesAggRow, BaseStateRow, venue_state_shape, bar_shape,
  book_snapshot_shape, trades_agg_shape, base_state_shape, venue_state_values, bar_values,
  book_snapshot_values, trades_agg_values, base_state_values,
}
use funding_carry.Db.Rows.Account.{
  AccountStateRow, FeatureRow, ProductRow, DecisionRow, account_state_shape, feature_shape,
  product_shape, decision_shape, account_state_values, feature_values, product_values,
  decision_values,
}
use funding_carry.Db.Rows.Trading.{
  PositionRow, FillRow, FundingEventRow, RiskEventRow, FixSessionRow, position_shape, fill_shape,
  funding_event_shape, risk_event_shape, fix_session_shape, position_values, fill_values,
  funding_event_values, risk_event_values, fix_session_values,
}

pub data Row (D S : Type 0) : Type 0 where
  venue_state : VenueStateRow D → Row D S
  bar : BarRow D → Row D S
  book_snapshot : BookSnapshotRow D → Row D S
  trades_agg : TradesAggRow D → Row D S
  base_state : BaseStateRow D → Row D S
  account_state : AccountStateRow D → Row D S
  feature : FeatureRow D → Row D S
  product : ProductRow D → Row D S
  decision : DecisionRow D S → Row D S
  position : PositionRow D → Row D S
  fill : FillRow D S → Row D S
  funding_event : FundingEventRow D → Row D S
  risk_event : RiskEventRow S → Row D S
  fix_session : FixSessionRow → Row D S

-- The types of rows, as numbers.
module _ {D S : Type 0} where
  unfoldable pub kind : Row D S → ℕ
  kind (venue_state r) = 0
  kind (bar r) = 1
  kind (book_snapshot r) = 2
  kind (trades_agg r) = 3
  kind (base_state r) = 4
  kind (account_state r) = 5
  kind (feature r) = 6
  kind (product r) = 7
  kind (decision r) = 8
  kind (position r) = 9
  kind (fill r) = 10
  kind (funding_event r) = 11
  kind (risk_event r) = 12
  kind (fix_session r) = 13

-- What `row` gives a row of each type, but for its values.
abbrev pub shapes : List Shape
shapes =
    venue_state_shape ∷ bar_shape ∷ book_snapshot_shape ∷ trades_agg_shape ∷ base_state_shape
    ∷ account_state_shape ∷ feature_shape ∷ product_shape ∷ decision_shape ∷ position_shape
    ∷ fill_shape ∷ funding_event_shape ∷ risk_event_shape ∷ fix_session_shape ∷ []

module _ {D S : Type 0} where
  unfoldable pub shape : Row D S → Shape
  shape (venue_state r) = venue_state_shape
  shape (bar r) = bar_shape
  shape (book_snapshot r) = book_snapshot_shape
  shape (trades_agg r) = trades_agg_shape
  shape (base_state r) = base_state_shape
  shape (account_state r) = account_state_shape
  shape (feature r) = feature_shape
  shape (product r) = product_shape
  shape (decision r) = decision_shape
  shape (position r) = position_shape
  shape (fill r) = fill_shape
  shape (funding_event r) = funding_event_shape
  shape (risk_event r) = risk_event_shape
  shape (fix_session r) = fix_session_shape

  unfoldable pub row_values : Row D S → List (Value D S)
  row_values (venue_state r) = venue_state_values r
  row_values (bar r) = bar_values r
  row_values (book_snapshot r) = book_snapshot_values r
  row_values (trades_agg r) = trades_agg_values r
  row_values (base_state r) = base_state_values r
  row_values (account_state r) = account_state_values r
  row_values (feature r) = feature_values r
  row_values (product r) = product_values r
  row_values (decision r) = decision_values r
  row_values (position r) = position_values r
  row_values (fill r) = fill_values r
  row_values (funding_event r) = funding_event_values r
  row_values (risk_event r) = risk_event_values r
  row_values (fix_session r) = fix_session_values r
