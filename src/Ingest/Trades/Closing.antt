-- ===== src/Ingest/Trades/Closing.antt =====
-- internal/ingest/trades.go: Tick ends, and leaves no bucket of an admitted product that is over.
use funding_carry.Prelude.{
  ℕ, zero, suc, ◌+◌, ◌-◌, ◌<◌, ◌≤◌, ◌≡◌, ◌≢◌, refl, ◌∷◌, [], List, Option, none, some, String, true,
  false, arith, Bool-cases, Option-cases, inl, inr, All, ◌++◌, subst,
}
use native.Mathlib.Nat.{mod-lt}
use mathlib.Core.Option.{some-injective}
use funding_carry.Prelude.Int.{ℤ}
use funding_carry.Clock.{Time, is_zero_time, truncate}
use funding_carry.Dict
use funding_carry.Dict.Laws.{lookup-insert}
use funding_carry.Decimal.{Decimal}
use funding_carry.Db.Rows.Market.{TradesAggRow}
use funding_carry.Ingest.Trades.Handler.{ProductTrades, TradesHandler, SinkError}
use funding_carry.Ingest.Trades.Tick.{
  Closed, Ticked, elapsed, bucket_row, without_bucket, close_due, close_all, admit, tick_product,
  tick_products, tick, lost, unless_failed,
}
use funding_carry.Prelude.Text.{str_eq, eq_refl}

module _ {D : Type 0} ⦃dec : Decimal D⦄ (sink : TradesAggRow D → Option SinkError) where
  -- A bucket that is over starts before now, and the next one starts later.
  elapsed-next :
      (interval : ℕ) (p : ProductTrades D) (now : Time)
      → 0 < interval
      → elapsed interval p.next now ≡ true
      → now - (without_bucket interval p).next < now - p.next
  unfolding elapsed without_bucket
  elapsed-next interval p now pos h = ground arith

  next-le : (interval : ℕ) (p : ProductTrades D) → p.next ≤ (without_bucket interval p).next
  unfolding without_bucket
  next-le interval p = omega arith

  -- With enough fuel the loop ends, by the sink's error or at a bucket that is not over.
  close_due_ends :
      (fuel interval : ℕ) (secs : ℤ) (product : String) (now : Time) (p : ProductTrades D)
      (rows : List (TradesAggRow D))
      → 0 < interval
      → now - p.next < fuel
      → (c : Closed D) × (close_due sink fuel interval secs product now p rows ≡ some c)
        × (p.next ≤ c.product.next)
        × (c.failure ≡ none → elapsed interval c.product.next now ≡ false)
  unfolding close_due
  close_due_ends zero interval secs product now p rows pos f = absurd (omega arith)
  close_due_ends (suc fuel) interval secs product now p rows pos f =
      elim (Bool-cases (elapsed interval p.next now)) [
        | inr later ↦ (
          record { product = p; rows = rows; failure = none },
          rw later refl,
          omega arith,
          λ ok. later,
        )
        | inl over ↦
            let row = bucket_row interval secs product p in
            elim (Option-cases (sink row)) [
              | inr (e, failed) ↦ (
                record { product = without_bucket interval p; rows = row ∷ rows; failure = some e },
                rw (over, failed) refl,
                next-le interval p,
                λ ok. cc,
              )
              | inl taken ↦
                  let (c, ends, on, later) =
                    close_due_ends fuel interval secs product now (without_bucket interval p)
                      (row ∷ rows) pos (omega (arith, elapsed-next interval p now pos over)) in
                  (c, rw (over, taken) ends, omega (arith, next-le interval p), later)
            ]
      ]

  close_all_ends :
      (interval : ℕ) (secs : ℤ) (product : String) (now : Time) (p : ProductTrades D)
      (rows : List (TradesAggRow D))
      → 0 < interval
      → (c : Closed D) × (close_all sink interval secs product now p rows ≡ some c)
        × (p.next ≤ c.product.next)
        × (c.failure ≡ none → elapsed interval c.product.next now ≡ false)
  unfolding close_all
  close_all_ends interval secs product now p rows pos =
      close_due_ends (suc (now - p.next)) interval secs product now p rows pos (omega arith)

-- Truncation goes back by less than its unit.
pub truncate-near : (t : Time) (d : ℕ) → 0 < d → (truncate t d ≤ t) × (t < truncate t d + d)
truncate-near t d pos = ground (arith, mod-lt t pos)

-- The product takes part, and the oldest bucket that is not written is not over.
abbrev pub IsCurrent : {D : Type 0} → ℕ → Time → ProductTrades D → Type 0
IsCurrent interval now p = (is_zero_time p.next ≡ false) × (elapsed interval p.next now ≡ false)

-- All the products are in the state.
abbrev pub IsKnown : {D : Type 0} → List (String × ProductTrades D) → List String → Type 0
IsKnown state products = All (λ product. Dict.lookup product state ≢ none) products

IsKnown-insert :
    {D : Type 0} (state : List (String × ProductTrades D)) (product : String) (p : ProductTrades D)
    (products : List String)
    → IsKnown state products
    → IsKnown (Dict.insert product p state) products
IsKnown-insert state product p [] k = tt
IsKnown-insert state product p (q ∷ qs) k = (
  λ e. elim (Bool-cases (str_eq product q)) [
    | inl same ↦ cc (rw (lookup-insert, same) at e)
    | inr other ↦ k.0 (rw (lookup-insert, other) at e)
  ],
  IsKnown-insert state product p qs k.1,
)

-- Every product of the list is current, where the state has it.
abbrev pub AllCurrent : {D : Type 0} → ℕ → Time → List (String × ProductTrades D) → String → Type 0
AllCurrent {D} interval now state product =
    (p : ProductTrades D) → Dict.lookup product state ≡ some p → IsCurrent interval now p

module _ {D : Type 0} where
  AllCurrent-insert :
      (interval : ℕ) (now : Time) (state : List (String × ProductTrades D)) (product q : String)
      (p : ProductTrades D)
      → IsCurrent interval now p
      → (str_eq product q ≡ false → AllCurrent interval now state q)
      → AllCurrent interval now (Dict.insert product p state) q
  AllCurrent-insert interval now state product q p c h r e = elim (Bool-cases (str_eq product q)) [
    | inl same ↦
        subst (IsCurrent interval now) (some-injective _ _ (rw (lookup-insert, same) at e)) c
    | inr other ↦ h other r (rw (lookup-insert, other) at e)
  ]

  admit-IsCurrent :
      (interval : ℕ) (now : Time) (p : ProductTrades D)
      → 0 < interval
      → IsCurrent interval now (admit interval now p)
  unfolding admit elapsed
  admit-IsCurrent interval now p pos = ground (arith, truncate-near now interval pos)

module _ {D : Type 0} ⦃dec : Decimal D⦄ (sink : TradesAggRow D → Option SinkError) where
  tick_product_ends :
      (interval : ℕ) (secs : ℤ) (now : Time) (t : Ticked D) (product : String) (p : ProductTrades D)
      → 0 < interval
      → (t' : Ticked D) × (p' : ProductTrades D) × (tick_product sink interval secs now t product
            (some p)
          ≡ some t')
        × (t'.state ≡ Dict.insert product p' t.state)
        × (t'.failure ≡ none → t.failure ≡ none → IsCurrent interval now p')
  unfolding tick_product
  tick_product_ends interval secs now t product p pos = elim (Bool-cases (is_zero_time p.next)) [
    | inl new ↦ (
      record t {
        state = Dict.insert product (admit interval now p) t.state;
        errors = t.errors ++ lost product p (admit interval now p).next;
      },
      admit interval now p,
      rw new refl,
      refl,
      λ ok. λ _. admit-IsCurrent interval now p pos,
    )
    | inr old ↦
        let (c, ends, on, later) = close_all_ends sink interval secs product now p t.rows pos in
        (
          record t {
            state = Dict.insert product c.product t.state;
            rows = c.rows;
            failure = c.failure;
          },
          c.product,
          rw (old, ends) refl,
          refl,
          λ ok. λ _. (ground (arith), later ok),
        )
  ]

  -- Tick of the products, for those of which `Done` were ticked before.
  tick_products_end :
      (interval : ℕ) (secs : ℤ) (now : Time) (products : List String) (t : Ticked D)
      → 0 < interval
      → t.failure ≡ none
      → IsKnown t.state products
      → (t' : Ticked D) × (tick_products sink interval secs now products t ≡ some t')
        × (t'.failure ≡ none
            → All (AllCurrent interval now t'.state) products
              × ((q : String)
                  → AllCurrent interval now t.state q
                  → AllCurrent interval now t'.state q))
  unfolding tick_products
  tick_products_end interval secs now [] t pos ok k = (t, refl, λ _. (tt, λ q h. h))
  tick_products_end interval secs now (product ∷ products) t pos ok k =
      elim (Option-cases (Dict.lookup product t.state)) [
        | inl missing ↦ absurd (k.0 missing)
        | inr (p, found) ↦
            let (t', p', ticked, changed, current) =
              tick_product_ends interval secs now t product p pos in
            elim (Option-cases t'.failure) [
              | inr (e, failed) ↦
                  (t', rw (tick_products, found, ticked, unless_failed, failed) refl, λ fine. cc)
              | inl fine ↦
                  let (u, ends, all) =
                    tick_products_end interval secs now products t' pos fine
                      (rw changed (IsKnown-insert t.state product p' products k.1)) in
                  (
                    u,
                    rw (tick_products, found, ticked, unless_failed, fine) ends,
                    λ done.
                        let (others, kept) = all done in
                        let keep : (q : String)
                            → (str_eq product q ≡ false → AllCurrent interval now t.state q)
                            → AllCurrent interval now u.state q =
                          λ q h. kept q (
                            rw changed (
                              AllCurrent-insert interval now t.state product q p' (current fine ok)
                                h)) in
                        (
                          (keep product (λ apart. cc (eq_refl product)), others),
                          λ q h. keep q (λ _. h),
                        ),
                  )
            ]
      ]

  -- With a positive interval and its products in its state, Tick ends. Unless the sink fails, every
  -- product then takes part, and none has a bucket left that is over.
  pub tick_ends :
      (h : TradesHandler D) (now : Time) (rows : List (TradesAggRow D))
      → 0 < h.interval
      → IsKnown h.state h.products
      → (t : Ticked D) × (tick sink h now rows ≡ some t)
        × (t.failure ≡ none → All (AllCurrent h.interval now t.state) h.products)
  unfolding tick
  tick_ends h now rows pos known =
      let (t, ends, all) =
        tick_products_end h.interval h.bucket_secs now h.products
          (record { state = h.state; rows = rows; errors = []; failure = none }) pos refl known in
      (t, ends, λ fine. (all fine).0)
