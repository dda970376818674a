-- ===== src/Ingest/Backfill/Examples.antt =====
-- The theorem of the backfill's search for gaps at a concrete input.
use funding_carry.Prelude.{ℕ, ◌+◌, ◌*◌, ◌<◌, ◌≡◌, refl, ◌∷◌, [], List, some}
use funding_carry.Prelude.Int.{ℤ, pos}
use funding_carry.Clock.{Time}
use funding_carry.TimeMap
use funding_carry.Ingest.Backfill.{minute, RestCandle, TimeRange, missing_from, missing_ranges}
use funding_carry.Ingest.Backfill.Gaps.{covered, is_missing, missing_ranges-exact}

abbrev at_minute : ℕ → Time × RestCandle ℤ
at_minute n = (
  n * minute,
  record {
    start = n * minute;
    opening = pos 1;
    high = pos 1;
    low = pos 1;
    closing = pos 1;
    volume = pos 1;
  },
)

-- Minutes 12 and 15 of the window from 10 to 17.
abbrev stored : List (Time × RestCandle ℤ)
stored = at_minute 15 ∷ at_minute 12 ∷ []

three_spans :
    missing_ranges stored (10 * minute) (17 * minute)
    ≡ some (
        record { from = 10 * minute; to = 12 * minute }
        ∷ record { from = 13 * minute; to = 15 * minute }
        ∷ record { from = 16 * minute; to = 17 * minute }
        ∷ [])
unfolding missing_ranges missing_from TimeMap.lookup
three_spans = refl

missing_ranges-exact_example :
    (rs : List TimeRange) × (missing_ranges stored (10 * minute) (17 * minute) ≡ some rs)
    × ((k : ℕ)
        → 10 * minute + k * minute < 17 * minute
        → covered (10 * minute + k * minute) rs ≡ is_missing stored (10 * minute + k * minute))
missing_ranges-exact_example = missing_ranges-exact stored (10 * minute) (17 * minute)
