-- ===== src/Ingest/Trades/Sweeps.antt =====
-- internal/ingest/trades.go: how many sweeps a bucket can have.
use funding_carry.Prelude.{
  ℕ, suc, ◌+◌, ◌*◌, ◌%◌, ◌^◌, ◌≤◌, ◌<◌, List, [], ◌∷◌, Option, none, some, length, ◌==◌, arith,
  Bool-cases, inl, inr, if◌then◌else◌, ◌≡◌,
}
use funding_carry.Ingest.Trades.{
  TradeSample, continues, sweeps_from, count_sweeps, next_int32, min_sweep_trades,
}

small_mod : (m n : ℕ) → m < n → m % n ≡ m
small_mod m n h = grind arith

-- What the loop keeps after `n` trades: a run is no longer than they are, and a run of one trade is
-- outside of every sweep that was counted.
abbrev IsCounted : ℕ → ℕ → ℕ → Type 0
IsCounted run sweeps n = (run ≤ n) × (2 * sweeps + (if run == 1 then 1 else 0) ≤ n)

IsCounted-longer :
    (run sweeps n : ℕ)
    → suc n < 2 ^ 32
    → IsCounted run sweeps n
    → IsCounted
        (next_int32 run)
        (if next_int32 run == min_sweep_trades then next_int32 sweeps else sweeps)
        (suc n)
IsCounted-longer run sweeps n h c =
    let long : suc run % 2 ^ 32 ≡ suc run = small_mod (suc run) (2 ^ 32) (omega (arith, c.0)) in
    let more : suc sweeps % 2 ^ 32 ≡ suc sweeps =
      small_mod (suc sweeps) (2 ^ 32) (ground (arith, c.1)) in
    ground (arith, long, more, c.0, c.1)

IsCounted-new : (run sweeps n : ℕ) → IsCounted run sweeps n → IsCounted 1 sweeps (suc n)
IsCounted-new run sweeps n c = ground (arith, c.1)

module _ {D : Type 0} where
  sweeps_from_le :
      (last : Option (TradeSample D)) (run sweeps n : ℕ) (ts : List (TradeSample D))
      → n + length ts < 2 ^ 32
      → IsCounted run sweeps n
      → 2 * sweeps_from last run sweeps ts ≤ n + length ts
  unfolding sweeps_from
  sweeps_from_le last run sweeps n [] h c = ground (arith, c.1)
  sweeps_from_le last run sweeps n (t ∷ ts) h c = elim (Bool-cases (continues last t)) [
    | inl on ↦
        let rest =
          sweeps_from_le (some t) (next_int32 run)
            (if next_int32 run == min_sweep_trades then next_int32 sweeps else sweeps) (suc n) ts
            (omega arith) (IsCounted-longer run sweeps n (omega arith) c) in
        rw on (omega (arith, rest))
    | inr off ↦
        let rest =
          sweeps_from_le (some t) 1 sweeps (suc n) ts (omega arith)
            (IsCounted-new run sweeps n c) in
        rw off (omega (arith, rest))
  ]

  -- In a bucket of fewer than 2 ^ 32 trades there are at most half as many sweeps as trades.
  pub count_sweeps_le :
      (trades : List (TradeSample D))
      → length trades < 2 ^ 32
      → 2 * count_sweeps trades ≤ length trades
  unfolding count_sweeps
  count_sweeps_le trades h =
      omega (arith, sweeps_from_le none 0 0 0 trades (omega arith) (omega arith, omega arith))
