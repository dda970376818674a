-- ===== src/Ingest/Funding/Runner.antt =====
-- internal/ingest/fundingrunner.go: FundingRunner. `shut` is Contains of the maintenance window and `sink`
-- is what Submit answers to a row; the rates handed to the venue-state sampler are part of what comes out.
use funding_carry.Prelude.{
  ℕ, zero, suc, ◌+◌, ◌-◌, ◌*◌, ◌/◌, List, [], ◌∷◌, ◌++◌, Option, none, some, String, Bool, not,
  ◌&&◌, if◌then◌else◌, inl, inr,
}
use funding_carry.Clock.{Time, is_zero_time, after, before}
use funding_carry.Decimal.{Decimal}
use funding_carry.Db.Rows.Trading.{FundingEventRow}
use funding_carry.Ingest.Trades.Handler.{SinkError}
use funding_carry.Ingest.Funding.{MarkSample, Funding, hour_ns, hour_of, rate_for_hour}

abbrev pub sample_retention : ℕ
sample_retention = 2 * hour_ns

pub record FundingRunner (D : Type 0) : Type 0 where
  pub product : String
  pub samples : List (MarkSample D)
  pub previous : Option D
  pub last_hour : Time

-- A runner after some hours, the rates handed to the sampler and the rows handed to the sink, in order,
-- and the sink's error that ended it, if any.
pub record Emitted (D : Type 0) : Type 0 where
  pub runner : FundingRunner D
  pub observed : List (Funding D)
  pub rows : List (FundingEventRow D)
  pub failure : Option SinkError

-- The hours of a tick's loop: from the first unrecorded on, by an hour, until one is after the newest.
unfoldable pub hours_from : ℕ → Time → List Time
hours_from zero hour = []
hours_from (suc n) hour = hour ∷ hours_from n (hour + hour_ns)

module _ {D : Type 0} where
  unfoldable pub new_funding_runner : String → FundingRunner D
  new_funding_runner product = record {
    product = product;
    samples = [];
    previous = none;
    last_hour = 0;
  }

  -- The samples that are not before the cutoff.
  unfoldable pub kept_since : Time → List (MarkSample D) → List (MarkSample D)
  kept_since cutoff [] = []
  kept_since cutoff (s ∷ samples) =
      let others = kept_since cutoff samples in
      if not (before s.at cutoff) then s ∷ others else others

  unfoldable pub observe : FundingRunner D → MarkSample D → FundingRunner D
  unfolding kept_since
  observe f s = record f { samples = kept_since (s.at - sample_retention) (f.samples ++ s ∷ []) }

  unfoldable pub seed : FundingRunner D → D → Time → FundingRunner D
  seed f rate hour = record f { previous = some rate; last_hour = hour }

  unfoldable pub first_unrecorded : FundingRunner D → Time → Time
  first_unrecorded f newest =
      if is_zero_time f.last_hour
      then newest
      else if before f.last_hour (newest - sample_retention)
      then newest - sample_retention
      else f.last_hour + hour_ns

  -- Nothing comes of the hour but that it is over.
  abbrev pub passed : FundingRunner D → Time → Emitted D
  passed f hour = record {
    runner = record f { last_hour = hour };
    observed = [];
    rows = [];
    failure = none;
  }

  -- The later hours come only if the first did not fail.
  abbrev pub followed : Emitted D → Emitted D → Emitted D
  followed first rest = elim first.failure [
    | none ↦ record {
      runner = rest.runner;
      observed = first.observed ++ rest.observed;
      rows = first.rows ++ rest.rows;
      failure = rest.failure;
    }
    | some e ↦ first
  ]

module _ {D : Type 0} ⦃dec : Decimal D⦄ where
  unfoldable pub accrual_row : String → Funding D → String → Option D → FundingEventRow D
  accrual_row product funding source spot_mark = record {
    ts = funding.hour_start;
    product_id = product;
    kind = "ACCRUAL";
    rate_hourly = some funding.rate;
    funding_source = source;
    position_id = none;
    amount = dec.zero;
    settled_by = none;
    spot_mark = spot_mark;
    contracts = none;
  }

  module _ (shut : Time → Bool) (sink : FundingEventRow D → Option SinkError) where
    -- record, and the end of Emit.
    unfoldable pub record_rate : FundingRunner D → Time → Funding D → Emitted D
    record_rate f hour funding =
        let row = accrual_row f.product funding "computed" none in
        let failure = sink row in
        record {
          runner = elim failure [
            | none ↦ record f { previous = some funding.rate; last_hour = hour }
            | some e ↦ f
          ];
          observed = funding ∷ [];
          rows = row ∷ [];
          failure = failure;
        }

    -- Emit, for the start of an hour.
    unfoldable pub emit_hour : FundingRunner D → Time → Emitted D
    emit_hour f hour =
        if not (after hour f.last_hour) && not (is_zero_time f.last_hour)
        then record { runner = f; observed = []; rows = []; failure = none }
        else if shut hour
        then passed f hour
        else elim (rate_for_hour hour f.samples f.previous) [
          | inl e ↦ passed f hour
          | inr funding ↦ record_rate f hour funding
        ]

    unfoldable pub emit : FundingRunner D → Time → Emitted D
    emit f hour = emit_hour f (hour_of hour)

    -- Emit of one hour after another, until the sink fails.
    unfoldable pub emit_all : FundingRunner D → List Time → Emitted D
    emit_all f [] = record { runner = f; observed = []; rows = []; failure = none }
    emit_all f (hour ∷ hours) =
        let first = emit f hour in followed first (emit_all first.runner hours)

  abbrev pub due_hours : FundingRunner D → Time → List Time
  due_hours f newest =
      let first = first_unrecorded f newest in
      hours_from ((newest + hour_ns - first) / hour_ns) first

  -- A tick of Run.
  unfoldable pub run_tick :
      (Time → Bool) → (FundingEventRow D → Option SinkError) → FundingRunner D → Time → Emitted D
  unfolding first_unrecorded hours_from emit_all
  run_tick shut sink f now = emit_all shut sink f (due_hours f (hour_of now - hour_ns))
