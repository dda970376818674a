-- ===== src/Fix/Engine/State.antt =====
-- internal/fix/engine.go: the engine's state and the small functions of it.
use funding_carry.Prelude.{
  ℕ, suc, List, ◌∷◌, none, some, String, Bool, true, false, not, ◌&&◌, leb, length, if◌then◌else◌,
  ◌==◌,
}
use funding_carry.Prelude.Int.{pos, ltb_ℤ}
use funding_carry.Clock.{Time}
use funding_carry.Decimal.{Decimal, is_zero}
use funding_carry.Dict.{lookup}
use funding_carry.Fix.Terms.{
  Side, Tif, Book, OrdType, OrdStatus, VenueId, order_of, refusal_of, report_of, Report,
  CancelReject,
}
use funding_carry.Fix.Fill.{age, jitter_latency}

pub record Submission (D : Type 0) : Type 0 where
  pub cl_ord_id : String
  pub symbol : String
  pub side : Side
  pub tif : Tif
  pub ord_type : OrdType
  pub qty : D
  pub limit_px : D
  pub session : String
  pub at : Time

pub record CancelRequest : Type 0 where
  pub cl_ord_id : String
  pub orig_cl_ord_id : String
  pub session : String
  pub at : Time

pub record Order (D : Type 0) : Type 0 where
  pub cl_ord_id : String
  pub order_id : VenueId
  pub session : String
  pub symbol : String
  pub side : Side
  pub tif : Tif
  pub qty : D
  pub limit_px : D
  pub slices : List D
  pub next : ℕ
  pub cum_qty : D
  pub notional : D
  pub ready_at : Time
  pub exec_seq : ℕ

-- config.FillModel, for durations and a number of slices that are not negative.
pub record FillModel (D : Type 0) : Type 0 where
  pub latency : ℕ
  pub slippage_bps : D
  pub partial_threshold : D
  pub partial_slices : ℕ
  pub book_poll : ℕ
  pub book_max_age : ℕ

pub record IdMinter : Type 0 where
  pub run : String
  pub orders : ℕ
  pub execs : ℕ

-- What the engine hands out: a row to the writer, a report to the session, a refused cancel.
pub data Output (D : Type 0) : Type 0 where
  recorded : Report D → Output D
  sent : Report D → Output D
  refused : CancelReject → Output D

-- The fields that `run` owns. `drawn` counts the draws from the seeded source; `outbox` holds what
-- was handed out, the newest first. The gauges and the log are left out.
pub record Engine (D : Type 0) : Type 0 where
  pub product : String
  pub fill : FillModel D
  pub live : List (String × Order D)
  pub final : List (String × OrdStatus)
  pub ids : IdMinter
  pub book : Book D
  pub have_book : Bool
  pub next_book_read : Time
  pub drawn : ℕ
  pub outbox : List (Output D)

-- What the engine depends on and does not implement: whether the writer takes a row, whether the
-- session takes a refused cancel, and the n-th draw below a bound.
pub record Env (D : Type 0) : Type 0 where
  pub records : Report D → Bool
  pub sends : CancelReject → Bool
  pub draw : ℕ → ℕ → ℕ

-- What ends `run`: a row that was not recorded, a refused cancel that was not sent. `no_slice` is
-- Go's panic on an index out of range.
pub data Fault : Type 0 where
  not_recorded : VenueId → Fault
  not_sent : String → Fault
  no_slice : Fault

abbrev pub mint_order : IdMinter → IdMinter × VenueId
mint_order m = (record m { orders = suc m.orders }, order_of m.run (suc m.orders))

abbrev pub mint_exec : IdMinter → IdMinter × VenueId
mint_exec m = (record m { execs = suc m.execs }, refusal_of m.run (suc m.execs))

module _ {D : Type 0} ⦃dec : Decimal D⦄ where
  unfoldable pub leaves : Order D → D
  leaves o = dec.sub o.qty o.cum_qty

  unfoldable pub avg_px : Order D → D
  avg_px o = if is_zero o.cum_qty then dec.zero else dec.div o.notional o.cum_qty

module _ {D : Type 0} where
  unfoldable pub done : Order D → Bool
  done o = leb (length o.slices) o.next

  -- `execID`, for the sequence number that the order has been given.
  abbrev pub exec_id : Order D → VenueId
  exec_id o = report_of o.order_id o.exec_seq

  unfoldable pub book_fresh : Engine D → Time → Bool
  book_fresh e now = e.have_book && not (ltb_ℤ (pos e.fill.book_max_age) (age e.book now))

  unfoldable pub known : Engine D → String → Bool
  known e id = elim (lookup id e.live) [
    | some o ↦ true
    | none ↦ elim (lookup id e.final) [ some s ↦ true | none ↦ false ]
  ]

  -- jitterLatency on the engine's source; nothing is drawn for a latency of zero.
  unfoldable pub next_latency : Env D → Engine D → Engine D × ℕ
  next_latency env e = if e.fill.latency == 0 then (e, 0) else (
    record e { drawn = suc e.drawn },
    jitter_latency (env.draw e.drawn e.fill.latency) e.fill.latency,
  )

  abbrev pub emit : Output D → Engine D → Engine D
  emit x e = record e { outbox = x ∷ e.outbox }
