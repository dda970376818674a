-- ===== src/Ingest/Funding/Examples.antt =====
-- The theorem of the funding runner at a concrete input.
use funding_carry.Prelude.{
  ℕ, zero, suc, ◌+◌, ◌*◌, ◌≡◌, refl, ◌∷◌, [], ◌++◌, List, Option, none, Bool, ◌==◌, length, arith,
}
use funding_carry.Prelude.Int.{ℤ, pos}
use funding_carry.Clock.{Time}
use funding_carry.Decimal.Whole.{whole}
use funding_carry.Db.Rows.Trading.{FundingEventRow}
use funding_carry.Ingest.Trades.Handler.{SinkError}
use funding_carry.Ingest.Funding.{
  MarkSample, sample_interval, hour_ns, hour_of, rate_for_hour, series_from,
}
use funding_carry.Ingest.Funding.Runner.{FundingRunner, emit_all, emit, emit_hour, record_rate}
use funding_carry.Ingest.Funding.Series.{last_rate, open_hours, accrual_rows, emit_all-series}

-- A basis of 24 times the spot mark, for a number of windows.
abbrev marks : ℕ → Time → List (MarkSample ℤ)
marks zero at = []
marks (suc n) at =
    record { at = at + sample_interval; futures_mark = pos 50; spot_mark = pos 2 }
    ∷ marks n (at + sample_interval)

-- An hour, half of the next, and the one after the maintenance hour.
abbrev runner : FundingRunner ℤ
runner = record {
  product = "PERP";
  samples =
      marks 20 (100 * hour_ns)
      ++ marks 10 (101 * hour_ns)
      ++ marks 20 (102 * hour_ns)
      ++ marks 20 (103 * hour_ns);
  previous = none;
  last_hour = 99 * hour_ns;
}

abbrev shut : Time → Bool
shut t = t == 102 * hour_ns

abbrev takes : FundingEventRow ℤ → Option SinkError
takes row = none

abbrev hours : List Time
hours = 100 * hour_ns ∷ 101 * hour_ns ∷ 102 * hour_ns ∷ 103 * hour_ns ∷ []

two_rows : length (emit_all shut takes runner hours).rows ≡ 2
unfolding emit_all emit emit_hour record_rate rate_for_hour hour_of
two_rows = refl

hour_100 : hour_of (100 * hour_ns) ≡ 100 * hour_ns
unfolding hour_of
hour_100 = refl

hour_101 : hour_of (101 * hour_ns) ≡ 101 * hour_ns
unfolding hour_of
hour_101 = refl

hour_102 : hour_of (102 * hour_ns) ≡ 102 * hour_ns
unfolding hour_of
hour_102 = refl

hour_103 : hour_of (103 * hour_ns) ≡ 103 * hour_ns
unfolding hour_of
hour_103 = refl

emit_all-series_example :
    let fs = (series_from (open_hours shut hours) runner.samples runner.previous).0 in
    let done = emit_all shut takes runner hours in
    (done.failure ≡ none)
    × (done.observed ≡ fs)
    × (done.rows ≡ accrual_rows runner.product fs)
    × (done.runner.previous ≡ last_rate runner.previous fs)
emit_all-series_example =
    emit_all-series shut takes runner hours (λ row. refl)
      (
        omega arith,
        hour_100,
        (omega arith, hour_101, (omega arith, hour_102, (omega arith, hour_103, tt))),
      )
