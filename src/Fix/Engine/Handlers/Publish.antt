-- ===== src/Fix/Engine/Handlers/Publish.antt =====
-- internal/fix/engine.go: publish, and the report of an order.
use funding_carry.Prelude.{Option, none, some, if◌then◌else◌}
use funding_carry.Clock.{Time}
use funding_carry.Decimal.{Decimal, is_positive}
use funding_carry.Fix.Terms.{OrdStatus, ExecType, Report, Text, VenueId}
use funding_carry.Fix.Engine.State.{Order, Engine, Env, Fault, not_recorded, recorded, sent, emit}

module _ {D : Type 0} ⦃dec : Decimal D⦄ where
  -- A report that moved quantity is recorded first, and sent only if that succeeded. What the
  -- session does with a report is not an error of the engine's.
  unfoldable pub publish : Env D → Engine D → Report D → Engine D × Option Fault
  publish env e r =
      if is_positive r.last_qty
      then if env.records r
        then (emit (sent r) (emit (recorded r) e), none)
        else (e, some (not_recorded r.exec_id))
      else (emit (sent r) e, none)

  -- A report of an order, with no fill in it.
  abbrev pub report_on : Order D → VenueId → ExecType → OrdStatus → D → D → Text → Time → Report D
  report_on o exec kind status leaves_qty average reason at = record {
    order_id = o.order_id;
    exec_id = exec;
    cl_ord_id = o.cl_ord_id;
    orig_cl_ord_id = "";
    symbol = o.symbol;
    side = o.side;
    exec_type = kind;
    ord_status = status;
    last_qty = dec.zero;
    last_px = dec.zero;
    cum_qty = o.cum_qty;
    leaves_qty = leaves_qty;
    avg_px = average;
    order_qty = o.qty;
    text = reason;
    at = at;
    session = o.session;
  }
