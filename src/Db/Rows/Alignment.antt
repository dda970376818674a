-- ===== src/Db/Rows/Alignment.antt =====
-- internal/db/rows.go: the columns and the values of a row are positional.
use funding_carry.Prelude.{◌≡◌, refl, length}
use funding_carry.Db.Rows.{Row, shape, row_values}
use funding_carry.Db.Rows.Market.{
  venue_state_values, bar_values, book_snapshot_values, trades_agg_values, base_state_values,
}
use funding_carry.Db.Rows.Account.{
  account_state_values, feature_values, product_values, decision_values,
}
use funding_carry.Db.Rows.Trading.{
  position_values, fill_values, funding_event_values, risk_event_values, fix_session_values,
}

module _ {D S : Type 0} where
  -- A row of any type binds one value for each column that it names.
  pub row_values-length : (r : Row D S) → length (row_values r) ≡ length (shape r).columns
  unfolding row_values shape venue_state_values bar_values book_snapshot_values trades_agg_values
      base_state_values account_state_values feature_values product_values decision_values
      position_values fill_values funding_event_values risk_event_values fix_session_values
  row_values-length (Row.venue_state r) = refl
  row_values-length r = refl
