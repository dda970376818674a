-- ===== src/Fix/Terms.antt =====
-- internal/fix/fill.go and message.go: the simulator's own vocabulary, and what it answers with.
-- The FIX enumerations of quickfix are the constructors that the source uses.
use funding_carry.Prelude.{String, ℕ}
use funding_carry.Clock.{Time}

-- `side` in the source: what arrived on the wire.
pub data Side : Type 0 where
  buy sell : Side

-- `tif`; `unsupported` is the empty text, to which tifFromFIX maps every other time in force.
pub data Tif : Type 0 where
  gtc ioc unsupported : Tif

-- The top of the market that one evaluation prices against.
pub record Book (D : Type 0) : Type 0 where
  pub ts : Time
  pub bid : D
  pub ask : D

-- enum.OrdType, as far as the engine tells them apart.
pub data OrdType : Type 0 where
  limit not_limit : OrdType

pub data OrdStatus : Type 0 where
  new partially_filled filled canceled rejected : OrdStatus

pub data ExecType : Type 0 where
  new trade canceled rejected : ExecType

pub data CancelRefusal : Type 0 where
  unknown_order too_late_to_cancel : CancelRefusal

-- The texts that the source spells out once, as constants; `no_text` is the empty one.
pub data Text : Type 0 where
  no_text : Text
  reject_duplicate reject_unknown_symbol reject_ord_type reject_tif reject_qty reject_price : Text
  reject_no_market : Text
  cancel_requested cancel_ioc_remainder cancel_no_market : Text

-- The venue's identifiers, which the source formats as SIMV-<run>-<n>, SIMV-<run>-x<n> and
-- <order id>-<seq>; here they are what is formatted.
pub data VenueId : Type 0 where
  order_of : String → ℕ → VenueId
  refusal_of : String → ℕ → VenueId
  report_of : VenueId → ℕ → VenueId

-- `report`: an ExecutionReport before it is rendered.
pub record Report (D : Type 0) : Type 0 where
  pub order_id : VenueId
  pub exec_id : VenueId
  pub cl_ord_id : String
  pub orig_cl_ord_id : String
  pub symbol : String
  pub side : Side
  pub exec_type : ExecType
  pub ord_status : OrdStatus
  pub last_qty : D
  pub last_px : D
  pub cum_qty : D
  pub leaves_qty : D
  pub avg_px : D
  pub order_qty : D
  pub text : Text
  pub at : Time
  pub session : String

-- `cancelReject`: an OrderCancelReject. Its order id is always the constant NONE, so it is left out.
pub record CancelReject : Type 0 where
  pub cl_ord_id : String
  pub orig_cl_ord_id : String
  pub ord_status : OrdStatus
  pub reason : CancelRefusal
  pub at : Time
  pub session : String
