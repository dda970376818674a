-- ===== src/Ingest/Funding/Series.antt =====
-- internal/ingest/funding.go and fundingrunner.go: the live runner writes the series that the backfill
-- reconstructs, and a series can be cut anywhere and taken up from the last rate.
use funding_carry.Prelude.{
  ◌<◌, ◌≡◌, refl, ap, List, [], ◌∷◌, ◌++◌, map, Option, none, some, String, Bool, true, false,
  Sum-cases, Bool-cases, if◌then◌else◌, lt→ltb, inl, inr,
}
use funding_carry.Clock.{Time}
use funding_carry.Decimal.{Decimal}
use funding_carry.Db.Rows.Trading.{FundingEventRow}
use funding_carry.Ingest.Trades.Handler.{SinkError}
use funding_carry.Ingest.Funding.{
  MarkSample, Funding, FundingError, hour_of, rate_for_hour, series_from,
}
use funding_carry.Ingest.Funding.Runner.{
  FundingRunner, Emitted, accrual_row, passed, followed, record_rate, emit_hour, emit, emit_all,
}

-- The rate that smoothing goes on from.
abbrev pub last_rate : {D : Type 0} → Option D → List (Funding D) → Option D
last_rate previous [] = previous
last_rate previous (f ∷ fs) = last_rate (some f.rate) fs

-- The hours that the market is open for.
abbrev pub open_hours : (Time → Bool) → List Time → List Time
open_hours shut [] = []
open_hours shut (h ∷ hours) = if shut h then open_hours shut hours else h ∷ open_hours shut hours

-- Every hour starts on the hour, after the one before it and the last that is over.
abbrev pub AreDue : Time → List Time → Type 0
AreDue last [] = Unit
AreDue last (h ∷ hours) = (last < h) × (hour_of h ≡ h) × AreDue h hours

abbrev pub accrual_rows :
    {D : Type 0} ⦃dec : Decimal D⦄ → String → List (Funding D) → List (FundingEventRow D)
accrual_rows product fs = map (λ f. accrual_row product f "computed" none) fs

module _ {D : Type 0} ⦃dec : Decimal D⦄ where
  -- For any hours, cut anywhere: the series of all of them is the series of the first part, and then that
  -- of the second part from the last rate of the first, an hour that could not be marked counting for
  -- nothing.
  pub series_from-append :
      (xs ys : List Time) (samples : List (MarkSample D)) (seed : Option D)
      → let first = series_from xs samples seed in
        let second = series_from ys samples (last_rate seed first.0) in
        series_from (xs ++ ys) samples seed ≡ (first.0 ++ second.0, first.1 ++ second.1)
  unfolding series_from
  series_from-append [] ys samples seed = refl
  series_from-append (x ∷ xs) ys samples seed = elim (Sum-cases (rate_for_hour x samples seed)) [
    | inl (e, missed) ↦
        let rest = series_from-append xs ys samples seed in rw (series_from, missed, rest) refl
    | inr (f, marked) ↦
        let rest = series_from-append xs ys samples (some f.rate) in
        rw (series_from, marked, rest) refl
  ]

  module _ (shut : Time → Bool) (sink : FundingEventRow D → Option SinkError) where
    emit-shut :
        (f : FundingRunner D) (h : Time)
        → f.last_hour < h
        → hour_of h ≡ h
        → shut h ≡ true
        → emit shut sink f h ≡ passed f h
    unfolding emit emit_hour
    emit-shut f h later whole closed = rw (emit, whole, lt→ltb f.last_hour h later, closed) refl

    emit-missed :
        (f : FundingRunner D) (h : Time) (e : FundingError)
        → f.last_hour < h
        → hour_of h ≡ h
        → shut h ≡ false
        → rate_for_hour h f.samples f.previous ≡ inl e
        → emit shut sink f h ≡ passed f h
    unfolding emit emit_hour
    emit-missed f h e later whole opened missed =
        rw (emit, whole, lt→ltb f.last_hour h later, opened, missed, whole) refl

    emit-marked :
        (f : FundingRunner D) (h : Time) (g : Funding D)
        → ((row : FundingEventRow D) → sink row ≡ none)
        → f.last_hour < h
        → hour_of h ≡ h
        → shut h ≡ false
        → rate_for_hour h f.samples f.previous ≡ inr g
        → emit shut sink f h ≡ record {
          runner = record f { previous = some g.rate; last_hour = h };
          observed = g ∷ [];
          rows = accrual_row f.product g "computed" none ∷ [];
          failure = none;
        }
    unfolding emit emit_hour record_rate
    emit-marked f h g takes later whole opened marked =
        rw
          (
            emit,
            whole,
            lt→ltb f.last_hour h later,
            opened,
            marked,
            record_rate,
            takes (accrual_row f.product g "computed" none),
            whole,
          )
          refl

    emit_all-cons :
        (f : FundingRunner D) (h : Time) (hours : List Time) (e : Emitted D)
        → emit shut sink f h ≡ e
        → emit_all shut sink f (h ∷ hours) ≡ followed e (emit_all shut sink e.runner hours)
    unfolding emit_all
    emit_all-cons f h hours e is = ap (λ e. followed e (emit_all shut sink e.runner hours)) is

    -- A sink that takes every row: over hours that are due, the live runner hands over, as rows and to the
    -- sampler, exactly the series of the hours that the market is open for, from its samples and its last
    -- rate, and goes on from the last rate of that series.
    pub emit_all-series :
        (f : FundingRunner D) (hours : List Time)
        → ((row : FundingEventRow D) → sink row ≡ none)
        → AreDue f.last_hour hours
        → let fs = (series_from (open_hours shut hours) f.samples f.previous).0 in
          let done = emit_all shut sink f hours in
          (done.failure ≡ none)
          × (done.observed ≡ fs)
          × (done.rows ≡ accrual_rows f.product fs)
          × (done.runner.previous ≡ last_rate f.previous fs)
    unfolding emit_all series_from
    emit_all-series f [] takes due = (refl, refl, refl, refl)
    emit_all-series f (h ∷ hours) takes (later, whole, due) = elim (Bool-cases (shut h)) [
      | inl closed ↦
          rw (emit_all-cons f h hours _ (emit-shut f h later whole closed), closed)
            (emit_all-series (record f { last_hour = h }) hours takes due)
      | inr opened ↦ elim (Sum-cases (rate_for_hour h f.samples f.previous)) [
        | inl (e, missed) ↦
            rw
              (
                emit_all-cons f h hours _ (emit-missed f h e later whole opened missed),
                opened,
                series_from,
                missed,
              )
              (emit_all-series (record f { last_hour = h }) hours takes due)
        | inr (g, marked) ↦
            let rest =
              emit_all-series (record f { previous = some g.rate; last_hour = h }) hours takes
                due in
            rw
              (
                emit_all-cons f h hours _ (emit-marked f h g takes later whole opened marked),
                opened,
                series_from,
                marked,
              )
              (
                rest.0,
                ap (λ gs. g ∷ gs) rest.1,
                ap (λ rows. accrual_row f.product g "computed" none ∷ rows) rest.2,
                rest.3,
              )
      ]
    ]
