-- ===== src/Fix/Fill.antt =====
-- internal/fix/fill.go: the fill model, pure functions of a touch and an order.
pub mod Price
pub mod Slices
use funding_carry.Prelude.{
  ℕ, ◌+◌, ◌-◌, ◌*◌, ◌/◌, List, [], ◌∷◌, ◌++◌, Bool, not, ◌||◌, ltb, leb, ◌==◌, if◌then◌else◌,
  replicate,
}
use funding_carry.Prelude.Int.{ℤ, pos, negsuc}
use funding_carry.Clock.{Time, Duration, time_sub}
use funding_carry.Decimal.{
  Decimal, equal, less_than, less_than_or_equal, greater_than, greater_than_or_equal,
}
use funding_carry.Fix.Terms.{Side, buy, sell, Book}

module _ {D : Type 0} where
  abbrev pub age : Book D → Time → Duration
  age b now = time_sub now b.ts

module _ {D : Type 0} ⦃dec : Decimal D⦄ where
  unfoldable pub marketable : Side → D → Book D → Bool
  marketable buy limit_px b = less_than_or_equal b.ask limit_px
  marketable sell limit_px b = greater_than_or_equal b.bid limit_px

  unfoldable pub exec_px : Side → D → Book D → D → D
  exec_px buy limit_px b slippage_bps =
      let px = dec.mul b.ask (dec.add dec.one (dec.shift slippage_bps (negsuc 3))) in
      if greater_than px limit_px then limit_px else px
  exec_px sell limit_px b slippage_bps =
      let px = dec.mul b.bid (dec.sub dec.one (dec.shift slippage_bps (negsuc 3))) in
      if less_than px limit_px then limit_px else px

  -- The slices of sliceSizes: `q` contracts in `k` of them, the remainder on the last.
  unfoldable pub cut : ℕ → ℕ → List D
  cut q k =
      let base = q / k in
      replicate (k - 1) (dec.from_int (pos base)) ++ dec.from_int (pos (q - base * (k - 1))) ∷ []

  -- The integer part of sliceSizes: no more slices than contracts.
  unfoldable pub whole_slices : D → ℕ → ℤ → List D
  whole_slices qty n (negsuc q) = qty ∷ []
  whole_slices qty n (pos q) =
      let k = if ltb q n then q else n in if leb k 1 then qty ∷ [] else cut q k

  unfoldable pub slice_sizes : D → D → ℕ → List D
  slice_sizes qty threshold n =
      if leb n 1 || less_than_or_equal qty threshold || not (equal qty (dec.truncate qty (pos 0)))
      then qty ∷ []
      else whole_slices qty n (dec.int_part qty)

-- jitterLatency: the configured latency spread over [d/2, 3d/2). `draw` is what the seeded source
-- returns for Int64N(d), a number below `d`.
unfoldable pub jitter_latency : ℕ → ℕ → ℕ
jitter_latency draw d = if d == 0 then 0 else d / 2 + draw
