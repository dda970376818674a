-- ===== src/Fix/Engine/Handlers/Accept.antt =====
-- internal/fix/engine.go: accept and the refusals.
use funding_carry.Prelude.{ℕ, ◌+◌, Option, Bool, true, false, not, ◌||◌, if◌then◌else◌}
use funding_carry.Prelude.Int.{pos}
use funding_carry.Prelude.Text.{str_eq}
use funding_carry.Decimal.{Decimal, equal, less_than_or_equal}
use funding_carry.Dict.{insert}
use funding_carry.Fix.Terms.{
  Tif, unsupported, OrdType, limit, not_limit, OrdStatus, ExecType, Text, no_text, reject_duplicate,
  reject_unknown_symbol, reject_ord_type, reject_tif, reject_qty, reject_price, reject_no_market,
  VenueId,
}
use funding_carry.Fix.Fill.{slice_sizes}
use funding_carry.Fix.Engine.State.{
  Submission, Order, Engine, Env, Fault, mint_order, mint_exec, book_fresh, known, next_latency,
}
use funding_carry.Fix.Engine.Handlers.Publish.{publish, report_on}

abbrev supported_tif : Tif → Bool
supported_tif unsupported = false
supported_tif _ = true

abbrev is_limit : OrdType → Bool
is_limit limit = true
is_limit not_limit = false

module _ {D : Type 0} ⦃dec : Decimal D⦄ where
  unfoldable pub unsupported_text : Engine D → Submission D → Text
  unsupported_text e s =
      if not (str_eq s.symbol e.product)
      then reject_unknown_symbol
      else if not (is_limit s.ord_type)
      then reject_ord_type
      else if not (supported_tif s.tif)
      then reject_tif
      else if less_than_or_equal s.qty dec.zero || not (equal s.qty (dec.truncate s.qty (pos 0)))
      then reject_qty
      else if less_than_or_equal s.limit_px dec.zero
      then reject_price
      else no_text

  unfoldable pub refusal_after : Engine D → Submission D → Text → Text
  refusal_after e s no_text = if book_fresh e s.at then no_text else reject_no_market
  refusal_after e s t = t

  unfoldable pub refusal : Engine D → Submission D → Text
  unfolding refusal_after
  refusal e s =
      if known e s.cl_ord_id then reject_duplicate else refusal_after e s (unsupported_text e s)

  -- The rejection of an order that was never accepted.
  unfoldable pub reject : Env D → Engine D → Submission D → Text → Engine D × Option Fault
  reject env e s reason =
      let (ids, order_id) = mint_order e.ids in
      let (ids', exec) = mint_exec ids in
      publish env (record e { ids = ids' })
        (record {
          order_id = order_id;
          exec_id = exec;
          cl_ord_id = s.cl_ord_id;
          orig_cl_ord_id = "";
          symbol = s.symbol;
          side = s.side;
          exec_type = ExecType.rejected;
          ord_status = OrdStatus.rejected;
          last_qty = dec.zero;
          last_px = dec.zero;
          cum_qty = dec.zero;
          leaves_qty = dec.zero;
          avg_px = dec.zero;
          order_qty = s.qty;
          text = reason;
          at = s.at;
          session = s.session;
        })

  -- The order that `accept` puts on the book.
  unfoldable pub new_order : Engine D → Submission D → VenueId → ℕ → Order D
  new_order e s order_id latency = record {
    cl_ord_id = s.cl_ord_id;
    order_id = order_id;
    session = s.session;
    symbol = s.symbol;
    side = s.side;
    tif = s.tif;
    qty = s.qty;
    limit_px = s.limit_px;
    slices = slice_sizes s.qty e.fill.partial_threshold e.fill.partial_slices;
    next = 0;
    cum_qty = dec.zero;
    notional = dec.zero;
    ready_at = s.at + latency;
    exec_seq = 0;
  }

  unfoldable pub admit : Env D → Engine D → Submission D → Engine D × Option Fault
  admit env e s =
      let (ids, order_id) = mint_order e.ids in
      let (e', latency) = next_latency env (record e { ids = ids }) in
      let o = new_order e s order_id latency in
      let (ids', exec) = mint_exec e'.ids in
      publish env (record e' { ids = ids'; live = insert o.cl_ord_id o e'.live })
        (report_on o exec ExecType.new OrdStatus.new o.qty dec.zero no_text s.at)

  unfoldable pub accept_or : Env D → Engine D → Submission D → Text → Engine D × Option Fault
  accept_or env e s no_text = admit env e s
  accept_or env e s reason = reject env e s reason

  unfoldable pub accept : Env D → Engine D → Submission D → Engine D × Option Fault
  unfolding accept_or
  accept env e s = accept_or env e s (refusal e s)
