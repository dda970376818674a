-- ===== src/Carry.antt =====
-- internal/carry/venue.go: the order-entry contract that every venue speaks.
use funding_carry.Prelude.{Bool, true, false, String}
use funding_carry.Prelude.Text.{str_eq}
use funding_carry.Clock.{Time}

pub data Leg : Type 0 where
  spot perp : Leg

pub data Side : Type 0 where
  buy sell : Side

pub data OrdType : Type 0 where
  limit market : OrdType

-- The times in force.
pub data Tif : Type 0 where
  gtc ioc alo : Tif

pub record Order (D : Type 0) : Type 0 where
  pub cl_ord_id : String
  pub asset : String
  pub leg : Leg
  pub side : Side
  pub ord_type : OrdType
  pub tif : Tif
  pub qty : D
  pub limit_px : D
  pub reduce_only : Bool

pub record Ack : Type 0 where
  pub cl_ord_id : String
  pub venue_id : String
  pub at : Time

-- The source's type is a string: the five states that the database checks, the tracker's own
-- PENDING, and any other text that a venue might send.
pub data ExecState : Type 0 where
  new partial filled canceled rejected pending : ExecState
  other : String → ExecState

-- `==` on two states.
abbrev pub same_state : ExecState → ExecState → Bool
same_state new new = true
same_state partial partial = true
same_state filled filled = true
same_state canceled canceled = true
same_state rejected rejected = true
same_state pending pending = true
same_state (other s) (other t) = str_eq s t
same_state _ _ = false

unfoldable pub terminal : ExecState → Bool
terminal filled = true
terminal canceled = true
terminal rejected = true
terminal _ = false

pub record ExecReport (D : Type 0) : Type 0 where
  pub cl_ord_id : String
  pub venue_id : String
  pub exec_id : String
  pub state : ExecState
  pub last_qty : D
  pub last_px : D
  pub cum_qty : D
  pub leaves_qty : D
  pub avg_px : D
  pub fee : D
  pub reason : String
  pub at : Time
  pub received_at : Time
