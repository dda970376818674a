-- ===== src/Fix/Engine/Handlers/Evaluate.antt =====
-- internal/fix/engine.go: what a due evaluation does, and what a cancel does.
use funding_carry.Prelude.{
  suc, ◌+◌, Option, none, some, String, Bool, true, false, not, get_elem?, if◌then◌else◌,
}
use funding_carry.Prelude.Text.{str_eq}
use funding_carry.Clock.{Time}
use funding_carry.Decimal.{Decimal}
use funding_carry.Dict.{lookup, insert, delete}
use funding_carry.Fix.Terms.{
  Tif, ioc, OrdStatus, ExecType, CancelReject, CancelRefusal, unknown_order, too_late_to_cancel,
  Text, no_text, cancel_ioc_remainder, cancel_no_market,
}
use funding_carry.Fix.Fill.{marketable, exec_px}
use funding_carry.Fix.Engine.State.{
  CancelRequest, Order, Engine, Env, Fault, not_sent, no_slice, refused, leaves, avg_px, done,
  exec_id, book_fresh, next_latency, emit,
}
use funding_carry.Fix.Engine.Handlers.Publish.{publish, report_on}

abbrev pub is_ioc : Tif → Bool
is_ioc ioc = true
is_ioc _ = false

abbrev pub cancel_reject : CancelRequest → OrdStatus → CancelRefusal → CancelReject
cancel_reject c status reason = record {
  cl_ord_id = c.cl_ord_id;
  orig_cl_ord_id = c.orig_cl_ord_id;
  ord_status = status;
  reason = reason;
  at = c.at;
  session = c.session;
}

module _ {D : Type 0} ⦃dec : Decimal D⦄ where
  -- `finish`, by which an order leaves the book unfilled; `request` is the cancel's own id, or empty.
  unfoldable pub finish :
      Env D → Engine D → Order D → Time → String → OrdStatus → Text → Engine D × Option Fault
  finish env e o at request status reason =
      let o' = record o { exec_seq = suc o.exec_seq } in
      let r = report_on o' (exec_id o') ExecType.canceled status dec.zero (avg_px o) reason at in
      publish env
        (record e { live = delete o.cl_ord_id e.live; final = insert o.cl_ord_id status e.final })
        (record r {
          cl_ord_id = if str_eq request "" then o.cl_ord_id else request;
          orig_cl_ord_id = if str_eq request "" then "" else o.cl_ord_id;
        })

  -- The order after its next slice, of `qty` at `px`.
  unfoldable pub filled_by : Order D → D → D → Order D
  filled_by o qty px = record o {
    next = suc o.next;
    cum_qty = dec.add o.cum_qty qty;
    notional = dec.add o.notional (dec.mul px qty);
    exec_seq = suc o.exec_seq;
  }

  -- printSlice, once the slice is read: the order as it has become, beside what happened.
  unfoldable pub print_fill :
      Env D → Engine D → Order D → D → Time → Order D × Engine D × Option Fault
  print_fill env e o qty now =
      let px = exec_px o.side o.limit_px e.book e.fill.slippage_bps in
      let o' = filled_by o qty px in
      let status = if done o' then OrdStatus.filled else OrdStatus.partially_filled in
      let e' =
        if done o'
        then record e {
          live = delete o.cl_ord_id e.live;
          final = insert o.cl_ord_id status e.final;
        }
        else record e { live = insert o.cl_ord_id o' e.live } in
      let r = report_on o' (exec_id o') ExecType.trade status (leaves o') (avg_px o') no_text now in
      let published = publish env e' (record r { last_qty = qty; last_px = px }) in
      (o', published.0, published.1)

  unfoldable pub print_slice : Env D → Engine D → Order D → Time → Order D × Engine D × Option Fault
  print_slice env e o now = elim (get_elem? o.slices o.next) [
    | none ↦ (o, e, some no_slice)
    | some qty ↦ print_fill env e o qty now
  ]

  -- `o.readyAt = at`, on the order that the book holds.
  abbrev pub defer : Engine D → Order D → Time → Engine D
  defer e o at = record e { live = insert o.cl_ord_id (record o { ready_at = at }) e.live }

  -- The end of `evaluate`, for an order that still has something to print.
  unfoldable pub cancel_remainder :
      Env D → Engine D → Order D → Time → Text → Engine D × Option Fault
  cancel_remainder env e o now reason =
      if is_ioc o.tif then finish env e o now "" OrdStatus.canceled reason else (e, none)

  -- `evaluate` after a slice was printed.
  unfoldable pub after_slice :
      Env D → Time → Order D × Engine D × Option Fault → Engine D × Option Fault
  after_slice env now (o, e, some f) = (e, some f)
  after_slice env now (o, e, none) =
      if done o
      then (e, none)
      else let (e', latency) = next_latency env e in
        cancel_remainder env (defer e' o (now + latency)) o now cancel_ioc_remainder

  unfoldable pub evaluate : Env D → Engine D → Order D → Time → Engine D × Option Fault
  evaluate env e o now =
      if not (book_fresh e now)
      then cancel_remainder env (if is_ioc o.tif then e else defer e o e.next_book_read) o now
          cancel_no_market
      else if marketable o.side o.limit_px e.book
      then after_slice env now (print_slice env e o now)
      else cancel_remainder env (defer e o e.next_book_read) o now cancel_ioc_remainder

  -- What sendCancelReject returns is what cancelRequested returns.
  abbrev pub refuse_cancel :
      Env D → Engine D → CancelRequest → OrdStatus → CancelRefusal → Engine D × Option Fault
  refuse_cancel env e c status reason =
      let r = cancel_reject c status reason in
      if env.sends r then (emit (refused r) e, none) else (e, some (not_sent c.cl_ord_id))

  unfoldable pub cancel_requested : Env D → Engine D → CancelRequest → Engine D × Option Fault
  cancel_requested env e c = elim (lookup c.orig_cl_ord_id e.live) [
    | some o ↦ finish env e o c.at c.cl_ord_id OrdStatus.canceled Text.cancel_requested
    | none ↦ elim (lookup c.orig_cl_ord_id e.final) [
      | some status ↦ refuse_cancel env e c status too_late_to_cancel
      | none ↦ refuse_cancel env e c OrdStatus.rejected unknown_order
    ]
  ]
