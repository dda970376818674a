-- ===== src/Ingest/Marks.antt =====
-- internal/ingest/marks.go, with Quote and midpoint of venuestate.go: the three-minute marks. The mutex
-- makes each call a step; a sample that is complete is part of what comes out.
use funding_carry.Prelude.{
  ℕ, suc, ◌+◌, ◌-◌, ◌*◌, ◌==◌, leb, List, [], ◌∷◌, ◌++◌, Option, none, some, String, not, ◌&&◌,
  if◌then◌else◌, length, drop,
}
use funding_carry.Prelude.Int.{pos}
use funding_carry.Clock.{Time, after, before, truncate}
use funding_carry.Dict
use funding_carry.Decimal.{Decimal, is_positive}
use funding_carry.Db.Rows.Market.{TradesAggRow}
use funding_carry.Ingest.Funding.{MarkSample, sample_interval}

pub record Quote (D : Type 0) : Type 0 where
  pub bid : Option D
  pub ask : Option D
  pub last : Option D
  pub at : Time
  pub venue_t : Time

pub record BucketMark (D : Type 0) : Type 0 where
  pub end : Time
  pub vwap : Option D
  pub volume : D

pub record MidMark (D : Type 0) : Type 0 where
  pub at : Time
  pub mid : D

pub record Marks (D : Type 0) : Type 0 where
  pub perp : String
  pub spot : String
  pub interval : ℕ
  pub buckets : List (String × List (BucketMark D))
  pub mids : List (String × List (MidMark D))
  pub gap : Option D
  pub last_boundary : Time

abbrev pub retain : ℕ
retain = 3

abbrev minute : ℕ
minute = 60000000000

-- retain*int(interval/time.Minute)+2, for the three minutes of the interval.
abbrev pub max_buckets : ℕ
max_buckets = retain * 3 + 2

abbrev pub max_mids : ℕ
max_mids = 64

module _ {ℓ} {A : Type ℓ} where
  unfoldable pub trim : List A → ℕ → List A
  trim xs max = if leb (length xs) max then xs else drop (length xs - max) xs

  abbrev pub or_nil : Option (List A) → List A
  or_nil none = []
  or_nil (some xs) = xs

  abbrev pub or_else : Option A → Option A → Option A
  or_else none other = other
  or_else (some a) other = some a

module _ {D : Type 0} where
  unfoldable pub new_marks : String → String → Marks D
  new_marks perp spot = record {
    perp = perp;
    spot = spot;
    interval = sample_interval;
    buckets = [];
    mids = [];
    gap = none;
    last_boundary = 0;
  }

module _ {D : Type 0} ⦃dec : Decimal D⦄ where
  unfoldable pub midpoint : Quote D → Option D
  midpoint q = elim q.bid [
    | none ↦ none
    | some b ↦ elim q.ask [
      | none ↦ none
      | some a ↦ some (dec.div (dec.add b a) (dec.from_int (pos 2)))
    ]
  ]

  unfoldable pub observe_bucket : Marks D → TradesAggRow D → Marks D
  unfolding trim
  observe_bucket m row = record m {
    buckets =
        Dict.insert row.product_id
          (trim
            (or_nil (Dict.lookup row.product_id m.buckets)
              ++ record { end = row.ts; vwap = row.vwap; volume = dec.add row.buy_vol row.sell_vol }
                ∷ [])
            max_buckets)
          m.buckets;
  }

  unfoldable pub observe_quote : Marks D → String → Quote D → Marks D
  unfolding trim midpoint
  observe_quote m product q = elim (midpoint q) [
    | none ↦ m
    | some mid ↦ record m {
      mids =
          Dict.insert product
            (trim (or_nil (Dict.lookup product m.mids) ++ record { at = q.at; mid = mid } ∷ [])
              max_mids)
            m.mids;
    }
  ]

  -- The notional and the volume of the buckets that end in the window.
  abbrev pub add_bucket : Time → Time → Time → D → Option D → D × D → D × D
  add_bucket start end at volume none sums = sums
  add_bucket start end at volume (some vwap) (notional, total) =
      if is_positive volume && after at start && not (after at end)
      then (dec.add notional (dec.mul vwap volume), dec.add total volume)
      else (notional, total)

  unfoldable pub sum_buckets : Time → Time → List (BucketMark D) → D × D → D × D
  sum_buckets start end [] sums = sums
  sum_buckets start end (b ∷ bs) sums =
      sum_buckets start end bs (add_bucket start end b.end b.volume b.vwap sums)

  unfoldable pub vwap_over : List (BucketMark D) → Time → Time → Option D
  unfolding sum_buckets
  vwap_over buckets start end =
      let sums = sum_buckets start end buckets (dec.zero, dec.zero) in
      if not (is_positive sums.1) then none else some (dec.div sums.0 sums.1)

  unfoldable pub sum_mids : Time → Time → List (MidMark D) → D × ℕ → D × ℕ
  sum_mids start end [] sums = sums
  sum_mids start end (q ∷ qs) (sum, n) =
      if not (before q.at start) && before q.at end
      then sum_mids start end qs (dec.add sum q.mid, suc n)
      else sum_mids start end qs (sum, n)

  unfoldable pub mid_twap_over : List (MidMark D) → Time → Time → Option D
  unfolding sum_mids
  mid_twap_over mids start end =
      let sums = sum_mids start end mids (dec.zero, 0) in
      if sums.1 == 0 then none else some (dec.div sums.0 (dec.from_int (pos sums.1)))

  -- markLocked: what traded, or else what was quoted.
  unfoldable pub mark : Marks D → String → Time → Time → Option D
  unfolding vwap_over mid_twap_over
  mark m product start end =
      or_else (vwap_over (or_nil (Dict.lookup product m.buckets)) start end)
        (mid_twap_over (or_nil (Dict.lookup product m.mids)) start end)

  -- The last resort: the mark of the other product and the gap that the two had.
  abbrev pub carried : Option D → Option D → Option D → Option D × Option D
  carried none (some spot) (some gap) = (some (dec.add spot gap), some spot)
  carried (some futures) none (some gap) = (some futures, some (dec.sub futures gap))
  carried none none gap = (none, none)
  carried none (some spot) none = (none, some spot)
  carried (some futures) none none = (some futures, none)
  carried (some futures) (some spot) gap = (some futures, some spot)

  abbrev pub gap_of : Option D → Option D × Option D → Option D
  gap_of gap (some futures, some spot) = some (dec.sub futures spot)
  gap_of gap (some futures, none) = gap
  gap_of gap (none, spot) = gap

  -- markPairLocked.
  unfoldable pub mark_pair : Marks D → Time → Time → (Option D × Option D) × Option D
  unfolding mark
  mark_pair m start end =
      let pair = carried (mark m m.perp start end) (mark m m.spot start end) m.gap in
      (pair, gap_of m.gap pair)

  abbrev pub sample_of : Time → Option D × Option D → Option (MarkSample D)
  sample_of end (some futures, some spot) =
      some (record { at = end; futures_mark = futures; spot_mark = spot })
  sample_of end (some futures, none) = none
  sample_of end (none, spot) = none

  unfoldable pub sample : Marks D → Time → Marks D × Option (MarkSample D)
  unfolding mark_pair
  sample m at =
      let end = truncate at m.interval in
      let marked = mark_pair m (end - m.interval) end in
      if not (after end m.last_boundary)
      then (m, none)
      else (record m { last_boundary = end; gap = marked.1 }, sample_of end marked.0)
