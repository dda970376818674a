-- ===== src/Ingest/Backfill/Gaps.antt =====
-- internal/ingest/backfill.go: the spans to download cover a minute exactly when it is not stored.
use funding_carry.Prelude.{
  ℕ, zero, suc, ◌+◌, ◌-◌, ◌*◌, ◌<◌, ◌≤◌, ◌≡◌, refl, ap, sym, subst, lt→ltb, ◌∙◌, List, [], ◌∷◌,
  ◌++◌, Option, none, some, Bool, true, false, ◌&&◌, ◌||◌, ltb, leb, arith, Bool-cases,
  Option-cases, inl, inr,
}
use funding_carry.Clock.{Time, before}
use funding_carry.TimeMap
use mathlib.Core.Option.{some-injective}
use funding_carry.Ingest.Backfill.{
  minute, RestCandle, TimeRange, close_open, extend, missing_from, missing_ranges,
}

abbrev pub within : TimeRange → Time → Bool
within r t = leb r.from t && ltb t r.to

abbrev pub covered : Time → List TimeRange → Bool
covered t [] = false
covered t (r ∷ rs) = within r t || covered t rs

covered-append :
    (t : Time) (rs ss : List TimeRange) → covered t (rs ++ ss) ≡ (covered t rs || covered t ss)
covered-append t [] ss = refl
covered-append t (r ∷ rs) ss = ground (arith, covered-append t rs ss)

abbrev pub is_missing : {D : Type 0} → List (Time × RestCandle D) → Time → Bool
is_missing have t = elim (TimeMap.lookup t have) [ none ↦ true | some c ↦ false ]

-- The spans end by now, and the open one just now.
record EndsAt (at : Time) (out : List TimeRange) (open_range : Option TimeRange) : Type 0 where
  past : (t : Time) → at ≤ t → covered t (close_open out open_range) ≡ false
  current : (r : TimeRange) → open_range ≡ some r → (r.to ≡ at) × (r.from ≤ at)

-- To extend the spans by a missing minute covers that minute.
covered-extend :
    (t at : Time) (out : List TimeRange) (open_range : Option TimeRange)
    → EndsAt at out open_range
    → covered t (close_open out (some (extend at open_range)))
      ≡ (covered t (close_open out open_range) || (leb at t && ltb t (at + minute)))
covered-extend t at out none ends = ground (arith, covered-append t out (extend at none ∷ []))
covered-extend t at out (some r) ends =
    let (to, from) = ends.current r refl in
    ground (
      arith,
      to,
      from,
      covered-append t out (extend at (some r) ∷ []),
      covered-append t out (r ∷ []),
    )

EndsAt-closed :
    (at : Time) (out : List TimeRange) (open_range : Option TimeRange)
    → EndsAt at out open_range
    → EndsAt (at + minute) (close_open out open_range) none
EndsAt-closed at out open_range ends = record {
  past = λ t le. ends.past t (omega arith);
  current = λ r e. cc;
}

extend-bounds :
    (at : Time) (out : List TimeRange) (open_range : Option TimeRange)
    → EndsAt at out open_range
    → ((extend at open_range).to ≡ at + minute) × ((extend at open_range).from ≤ at + minute)
extend-bounds at out none ends = (refl, omega arith)
extend-bounds at out (some r) ends = let (to, from) = ends.current r refl in (refl, omega arith)

EndsAt-extended :
    (at : Time) (out : List TimeRange) (open_range : Option TimeRange)
    → EndsAt at out open_range
    → EndsAt (at + minute) out (some (extend at open_range))
EndsAt-extended at out open_range ends = record {
  past = λ t le. ground (arith, covered-extend t at out open_range ends, ends.past t (omega arith));
  current = λ r e.
      subst (λ (q : TimeRange). (q.to ≡ at + minute) × (q.from ≤ at + minute))
        (some-injective _ _ e) (extend-bounds at out open_range ends);
}

module _ {D : Type 0} (have : List (Time × RestCandle D)) where
  -- What is listed stays listed, and nothing before now is added.
  covered-past :
      (fuel : ℕ) (t at end : Time) (out : List TimeRange) (open_range : Option TimeRange)
      (rs : List TimeRange)
      → t < at
      → EndsAt at out open_range
      → missing_from fuel have at end out open_range ≡ some rs
      → covered t rs ≡ covered t (close_open out open_range)
  unfolding missing_from
  covered-past zero t at end out open_range rs lt ends e = cc
  covered-past (suc fuel) t at end out open_range rs lt ends e = elim (Bool-cases (before at end)) [
    | inl more ↦ elim (Option-cases (TimeMap.lookup at have)) [
      | inl gap ↦
          covered-past fuel t (at + minute) end out (some (extend at open_range)) rs (omega arith)
            (EndsAt-extended at out open_range ends) (rw (missing_from, more, gap) at e)
          ∙ ground (arith, covered-extend t at out open_range ends)
      | inr (c, stored) ↦
          covered-past fuel t (at + minute) end (close_open out open_range) none rs (omega arith)
            (EndsAt-closed at out open_range ends) (rw (missing_from, more, stored) at e)
    ]
    | inr over ↦ ap (covered t) (sym (some-injective _ _ (rw (missing_from, over) at e)))
  ]

  -- The minute at hand is listed if it is missing.
  covered-now :
      (fuel : ℕ) (at end : Time) (out : List TimeRange) (open_range : Option TimeRange)
      (rs : List TimeRange)
      → at < end
      → EndsAt at out open_range
      → missing_from (suc fuel) have at end out open_range ≡ some rs
      → covered at rs ≡ is_missing have at
  unfolding missing_from
  covered-now fuel at end out open_range rs lt ends e =
      elim (Option-cases (TimeMap.lookup at have)) [
        | inl gap ↦
            rw (is_missing, gap)
              (covered-past fuel at (at + minute) end out (some (extend at open_range)) rs
                  (omega arith) (EndsAt-extended at out open_range ends)
                  (rw (missing_from, lt→ltb at end lt, gap) at e)
                ∙ ground (arith, covered-extend at at out open_range ends))
        | inr (c, stored) ↦
            rw (is_missing, stored)
              (covered-past fuel at (at + minute) end (close_open out open_range) none rs
                  (omega arith) (EndsAt-closed at out open_range ends)
                  (rw (missing_from, lt→ltb at end lt, stored) at e)
                ∙ ends.past at (omega arith))
      ]

  covered-ahead :
      (fuel k : ℕ) (t at end : Time) (out : List TimeRange) (open_range : Option TimeRange)
      (rs : List TimeRange)
      → t ≡ at + k * minute
      → t < end
      → EndsAt at out open_range
      → missing_from fuel have at end out open_range ≡ some rs
      → covered t rs ≡ is_missing have t
  unfolding missing_from
  covered-ahead zero k t at end out open_range rs is lt ends e = cc
  covered-ahead (suc fuel) zero t at end out open_range rs is lt ends e =
      let here : t ≡ at = omega arith in
      subst (λ u. covered u rs ≡ is_missing have u) (sym here)
        (covered-now fuel at end out open_range rs (omega arith) ends e)
  covered-ahead (suc fuel) (suc k) t at end out open_range rs is lt ends e =
      let more = lt→ltb at end (omega arith) in
      elim (Option-cases (TimeMap.lookup at have)) [
        | inl gap ↦
            covered-ahead fuel k t (at + minute) end out (some (extend at open_range)) rs
              (omega arith) lt (EndsAt-extended at out open_range ends)
              (rw (missing_from, more, gap) at e)
        | inr (c, stored) ↦
            covered-ahead fuel k t (at + minute) end (close_open out open_range) none rs
              (omega arith) lt (EndsAt-closed at out open_range ends)
              (rw (missing_from, more, stored) at e)
      ]

  missing_from-ends :
      (fuel : ℕ) (at end : Time) (out : List TimeRange) (open_range : Option TimeRange)
      → end - at < fuel
      → (rs : List TimeRange) × missing_from fuel have at end out open_range ≡ some rs
  unfolding missing_from
  missing_from-ends zero at end out open_range lt = absurd (omega arith)
  missing_from-ends (suc fuel) at end out open_range lt = elim (Bool-cases (before at end)) [
    | inl more ↦ elim (Option-cases (TimeMap.lookup at have)) [
      | inl gap ↦
          rw (missing_from, more, gap)
            (missing_from-ends fuel (at + minute) end out (some (extend at open_range))
              (ground arith))
      | inr (c, stored) ↦
          rw (missing_from, more, stored)
            (missing_from-ends fuel (at + minute) end (close_open out open_range) none
              (ground arith))
    ]
    | inr over ↦ rw (missing_from, over) (close_open out open_range, refl)
  ]

  -- For any stored candles and any window: the search ends, and every minute of the window, counted from
  -- its start, is in one of the spans exactly when no candle is stored for it.
  pub missing_ranges-exact :
      (start end : Time)
      → (rs : List TimeRange) × (missing_ranges have start end ≡ some rs)
        × ((k : ℕ)
            → start + k * minute < end
            → covered (start + k * minute) rs ≡ is_missing have (start + k * minute))
  unfolding missing_ranges
  missing_ranges-exact start end =
      let (rs, e) = missing_from-ends (suc (end - start)) start end [] none (omega arith) in
      (
        rs,
        e,
        λ k lt.
            covered-ahead (suc (end - start)) k (start + k * minute) start end [] none rs refl lt
              (record { past = λ t le. refl; current = λ r f. cc }) e,
      )
