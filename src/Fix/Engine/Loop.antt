-- ===== src/Fix/Engine/Loop.antt =====
-- internal/fix/engine.go: the run loop, one step for each thing that it selects.
pub mod Induction
use funding_carry.Prelude.{
  ◌+◌, List, [], ◌∷◌, Option, none, some, String, Bool, true, false, if◌then◌else◌,
}
use funding_carry.Prelude.Sort.{sort}
use funding_carry.Prelude.Int.{pos, ltb_ℤ}
use funding_carry.Prelude.Text.{str_lt}
use funding_carry.Clock.{Time, Duration, before, time_sub}
use funding_carry.Decimal.{Decimal}
use funding_carry.Dict.{values}
use funding_carry.Fix.Terms.{Book}
use funding_carry.Fix.Engine.State.{Submission, CancelRequest, Order, FillModel, Engine, Env, Fault}
use funding_carry.Fix.Engine.Handlers.{accept, evaluate, cancel_requested}

-- What LatestBook answers: an error, no row yet, or a snapshot.
pub data Reading (D : Type 0) : Type 0 where
  failed missing : Reading D
  found : Book D → Reading D

-- What `run` selects. A tick has the clock at its start and, if it reads the book, the clock and
-- the answer of that reading.
pub data Event (D : Type 0) : Type 0 where
  submitted : Submission D → Event D
  cancel_asked : CancelRequest → Event D
  fired : Time → Time → Reading D → Event D

module _ {D : Type 0} where
  abbrev pub take_reading : Engine D → Reading D → Engine D
  take_reading e failed = e
  take_reading e missing = e
  take_reading e (found b) = record e { book = b; have_book = true }

  unfoldable pub read_book : Engine D → Time → Reading D → Engine D
  read_book e at r = take_reading (record e { next_book_read = at + e.fill.book_poll }) r

  pub by_cl_ord_id : Order D → Order D → Bool
  by_cl_ord_id a b = str_lt a.cl_ord_id b.cl_ord_id

  unfoldable pub live_in_order : Engine D → List (Order D)
  unfolding by_cl_ord_id
  live_in_order e = sort by_cl_ord_id (values e.live)

  -- The least of the next book read and the moments at which an order may print.
  abbrev next_wake : Time → List (Order D) → Time
  next_wake t [] = t
  next_wake t (o ∷ os) = next_wake (if before o.ready_at t then o.ready_at else t) os

  unfoldable pub until_next_wake : Engine D → Time → Duration
  until_next_wake e now =
      let d = time_sub (next_wake e.next_book_read (values e.live)) now in
      if ltb_ℤ (pos 0) d then d else pos 0

module _ {D : Type 0} ⦃dec : Decimal D⦄ where
  unfoldable pub evaluate_if_due : Env D → Time → Engine D → Order D → Engine D × Option Fault
  evaluate_if_due env now e o = if before now o.ready_at then (e, none) else evaluate env e o now

  -- The orders of a tick, each evaluated if it is due, until one of them fails.
  unfoldable pub evaluate_due :
      Env D → Time → List (Order D) → Engine D × Option Fault → Engine D × Option Fault
  evaluate_due env now [] (e, f) = (e, f)
  evaluate_due env now (o ∷ os) (e, some f) = (e, some f)
  evaluate_due env now (o ∷ os) (e, none) = evaluate_due env now os (evaluate_if_due env now e o)

  unfoldable pub tick : Env D → Engine D → Time → Time → Reading D → Engine D × Option Fault
  tick env e now at r =
      let e' = if before now e.next_book_read then e else read_book e at r in
      evaluate_due env now (live_in_order e') (e', none)

  unfoldable pub step : Env D → Engine D → Event D → Engine D × Option Fault
  step env e (submitted s) = accept env e s
  step env e (cancel_asked c) = cancel_requested env e c
  step env e (fired now at r) = tick env e now at r

  -- `run` after its first reading, over the events it selects until the context ends or one fails.
  unfoldable pub run_from :
      Env D → Engine D × Option Fault → List (Event D) → Engine D × Option Fault
  run_from env (e, some f) evs = (e, some f)
  run_from env (e, none) [] = (e, none)
  run_from env (e, none) (ev ∷ evs) = run_from env (step env e ev) evs

  unfoldable pub run :
      Env D → Engine D → Time → Reading D → List (Event D) → Engine D × Option Fault
  run env e at r evs = run_from env (read_book e at r, none) evs

  -- newEngine; `run_id` is the start of the process in base 36.
  unfoldable pub new_engine : String → FillModel D → String → Engine D
  new_engine product fill run_id = record {
    product = product;
    fill = fill;
    live = [];
    final = [];
    ids = record { run = run_id; orders = 0; execs = 0 };
    book = record { ts = 0; bid = dec.zero; ask = dec.zero };
    have_book = false;
    next_book_read = 0;
    drawn = 0;
    outbox = [];
  }
