-- ===== src/Db/Rows/Trading.antt =====
-- internal/db/rows.go: the rows of positions, fills, funding, risk events and FIX sessions.
use funding_carry.Prelude.{List, [], ◌∷◌, Option, String}
use funding_carry.Prelude.Int.{ℤ}
use funding_carry.Clock.{Time}
use funding_carry.Db.Rows.Values.{
  Shape, Value, text, stamp, decimal_value, int_value, null_decimal, null_int, null_text,
  snapshot_value, text_value, time_value,
}

pub record PositionRow (D : Type 0) : Type 0 where
  pub id : String
  pub opened_at : Time
  pub closed_at : Time
  pub venue : String
  pub spot_qty : D
  pub perp_contracts : ℤ
  pub avg_spot_px : Option D
  pub avg_perp_px : Option D
  pub accrued_funding : D
  pub settlement_pending_funding : D
  pub fees : D
  pub slippage : D
  pub realized_pnl : Option D
  pub status : String

abbrev pub position_shape : Shape
position_shape = record {
  table = "positions";
  columns =
      "id" ∷ "opened_at" ∷ "closed_at" ∷ "venue" ∷ "spot_qty" ∷ "perp_contracts" ∷ "avg_spot_px"
      ∷ "avg_perp_px" ∷ "accrued_funding" ∷ "settlement_pending_funding" ∷ "fees" ∷ "slippage"
      ∷ "realized_pnl" ∷ "status" ∷ [];
  conflict = "ON CONFLICT (id) DO NOTHING";
}

unfoldable pub position_values : {D S : Type 0} → PositionRow D → List (Value D S)
unfolding text stamp
position_values r =
    text_value r.id
    ∷ time_value r.opened_at
    ∷ stamp r.closed_at
    ∷ text_value r.venue
    ∷ decimal_value r.spot_qty
    ∷ int_value r.perp_contracts
    ∷ null_decimal r.avg_spot_px
    ∷ null_decimal r.avg_perp_px
    ∷ decimal_value r.accrued_funding
    ∷ decimal_value r.settlement_pending_funding
    ∷ decimal_value r.fees
    ∷ decimal_value r.slippage
    ∷ null_decimal r.realized_pnl
    ∷ text_value r.status
    ∷ []

pub record FillRow (D S : Type 0) : Type 0 where
  pub ts : Time
  pub position_id : Option String
  pub cl_ord_id : String
  pub venue : String
  pub leg : String
  pub side : String
  pub qty : D
  pub px : D
  pub fee : Option D
  pub exec_state : String
  pub venue_exec_id : String
  pub raw : S

abbrev pub fill_shape : Shape
fill_shape = record {
  table = "fills";
  columns =
      "ts" ∷ "position_id" ∷ "cl_ord_id" ∷ "venue" ∷ "leg" ∷ "side" ∷ "qty" ∷ "px" ∷ "fee"
      ∷ "exec_state" ∷ "venue_exec_id" ∷ "raw" ∷ [];
  conflict = "ON CONFLICT (venue, venue_exec_id) DO NOTHING";
}

unfoldable pub fill_values : {D S : Type 0} → FillRow D S → List (Value D S)
fill_values r =
    time_value r.ts
    ∷ null_text r.position_id
    ∷ text_value r.cl_ord_id
    ∷ text_value r.venue
    ∷ text_value r.leg
    ∷ text_value r.side
    ∷ decimal_value r.qty
    ∷ decimal_value r.px
    ∷ null_decimal r.fee
    ∷ text_value r.exec_state
    ∷ text_value r.venue_exec_id
    ∷ snapshot_value r.raw
    ∷ []

pub record FundingEventRow (D : Type 0) : Type 0 where
  pub ts : Time
  pub product_id : String
  pub kind : String
  pub rate_hourly : Option D
  pub funding_source : String
  pub position_id : Option String
  pub amount : D
  pub settled_by : Option ℤ
  pub spot_mark : Option D
  pub contracts : Option ℤ

abbrev pub funding_event_shape : Shape
funding_event_shape = record {
  table = "funding_events";
  columns =
      "ts" ∷ "product_id" ∷ "kind" ∷ "rate_hourly" ∷ "funding_source" ∷ "position_id" ∷ "amount"
      ∷ "settled_by" ∷ "spot_mark" ∷ "contracts" ∷ [];
  conflict = "ON CONFLICT (product_id, kind, ts, position_id) DO NOTHING";
}

unfoldable pub funding_event_values : {D S : Type 0} → FundingEventRow D → List (Value D S)
unfolding text stamp
funding_event_values r =
    time_value r.ts
    ∷ text_value r.product_id
    ∷ text_value r.kind
    ∷ null_decimal r.rate_hourly
    ∷ text r.funding_source
    ∷ null_text r.position_id
    ∷ decimal_value r.amount
    ∷ null_int r.settled_by
    ∷ null_decimal r.spot_mark
    ∷ null_int r.contracts
    ∷ []

pub record RiskEventRow (S : Type 0) : Type 0 where
  pub ts : Time
  pub kind : String
  pub detail : S
  pub action_taken : String
  pub resolved_at : Time

abbrev pub risk_event_shape : Shape
risk_event_shape = record {
  table = "risk_events";
  columns = "ts" ∷ "kind" ∷ "detail" ∷ "action_taken" ∷ "resolved_at" ∷ [];
  conflict = "ON CONFLICT (ts, kind) DO NOTHING";
}

unfoldable pub risk_event_values : {D S : Type 0} → RiskEventRow S → List (Value D S)
unfolding text stamp
risk_event_values r =
    time_value r.ts
    ∷ text_value r.kind
    ∷ snapshot_value r.detail
    ∷ text r.action_taken
    ∷ stamp r.resolved_at
    ∷ []

pub record FixSessionRow : Type 0 where
  pub session_id : String
  pub started_at : Time
  pub ended_at : Time
  pub last_in_seq : Option ℤ
  pub last_out_seq : Option ℤ
  pub disconnects : ℤ

abbrev pub fix_session_shape : Shape
fix_session_shape = record {
  table = "fix_sessions";
  columns =
      "session_id" ∷ "started_at" ∷ "ended_at" ∷ "last_in_seq" ∷ "last_out_seq" ∷ "disconnects"
      ∷ [];
  conflict =
      "ON CONFLICT (session_id, started_at) DO UPDATE SET ended_at = EXCLUDED.ended_at, last_in_seq = COALESCE(EXCLUDED.last_in_seq, fix_sessions.last_in_seq), last_out_seq = COALESCE(EXCLUDED.last_out_seq, fix_sessions.last_out_seq), disconnects = EXCLUDED.disconnects";
}

unfoldable pub fix_session_values : {D S : Type 0} → FixSessionRow → List (Value D S)
unfolding text stamp
fix_session_values r =
    text_value r.session_id
    ∷ time_value r.started_at
    ∷ stamp r.ended_at
    ∷ null_int r.last_in_seq
    ∷ null_int r.last_out_seq
    ∷ int_value r.disconnects
    ∷ []
