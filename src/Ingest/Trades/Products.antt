-- ===== src/Ingest/Trades/Products.antt =====
-- internal/ingest/trades.go: predicates on all products of the handler with their rows.
use funding_carry.Prelude.{
  ℕ, ◌≡◌, refl, sym, ◌∷◌, [], List, some, String, false, arith, Bool-cases, inl, inr, subst,
}
use mathlib.Core.Option.{some-injective}
use funding_carry.Prelude.Int.{ℤ}
use funding_carry.Prelude.Text.{str_eq, eq_iff, eq_refl}
use funding_carry.Clock.{Time, is_zero_time}
use funding_carry.Dict
use funding_carry.Dict.Laws.{lookup-insert}
use funding_carry.Decimal.{Decimal}
use funding_carry.Db.Rows.Market.{TradesAggRow}
use funding_carry.Ingest.Trades.{TradeSample, aggregate, aggregate_sorted}
use funding_carry.Ingest.Trades.Handler.{ProductTrades, reset_product, reset_all}
use funding_carry.Ingest.Trades.Tick.{bucket_row, without_bucket}
use funding_carry.Ingest.Trades.History.{rows_of}

module _ {D : Type 0} (P : Time → String → ProductTrades D → List (TradesAggRow D) → Type 0) where
  -- It holds of every product of the state, with that product's rows.
  abbrev pub AllProducts : Time → List (String × ProductTrades D) → List (TradesAggRow D) → Type 0
  AllProducts c state rows =
      (q : String) (p : ProductTrades D) → Dict.lookup q state ≡ some p → P c q p (rows_of q rows)

  pub AllProducts-insert :
      (c : Time) (state : List (String × ProductTrades D)) (rows : List (TradesAggRow D))
      (q : String) (p : ProductTrades D)
      → P c q p (rows_of q rows)
      → AllProducts c state rows
      → AllProducts c (Dict.insert q p state) rows
  AllProducts-insert c state rows q p h all r o e = elim (Bool-cases (str_eq q r)) [
    | inl same ↦
        let changed : p ≡ o = some-injective _ _ (rw (lookup-insert, same) at e) in
        subst (λ s. P c s o (rows_of s rows)) ((eq_iff q r).0 same)
          (subst (λ u. P c q u (rows_of q rows)) changed h)
    | inr other ↦ all r o (rw (lookup-insert, other) at e)
  ]

module _ {D : Type 0} where
  pub lookup-reset_all :
      (q : String) (state : List (String × ProductTrades D)) (p : ProductTrades D)
      → Dict.lookup q (reset_all state) ≡ some p
      → (o : ProductTrades D) × (Dict.lookup q state ≡ some o) × (p ≡ reset_product o)
  unfolding reset_all Dict.lookup
  lookup-reset_all q [] p e = cc
  lookup-reset_all q ((r, o) ∷ state) p e = elim (Bool-cases (str_eq r q)) [
    | inl same ↦ (o, rw same refl, sym (some-injective _ _ (rw (same, Dict.lookup) at e)))
    | inr other ↦
        let (o', found, is) = lookup-reset_all q state p (rw (other, Dict.lookup) at e) in
        (o', rw other found, is)
  ]

  pub next-IsPositive :
      (interval : ℕ) (p : ProductTrades D)
      → is_zero_time p.next ≡ false
      → is_zero_time (without_bucket interval p).next ≡ false
  unfolding without_bucket
  next-IsPositive interval p z = ground arith

module _ {D : Type 0} ⦃dec : Decimal D⦄ where
  pub aggregate_product :
      (product : String) (end : Time) (secs : ℤ) (ts : List (TradeSample D))
      → (aggregate product end secs ts).product_id ≡ product
  unfolding aggregate aggregate_sorted
  aggregate_product product end secs [] = refl
  aggregate_product product end secs (t ∷ ts) = refl

  pub aggregate_ts :
      (product : String) (end : Time) (secs : ℤ) (ts : List (TradeSample D))
      → (aggregate product end secs ts).ts ≡ end
  unfolding aggregate aggregate_sorted
  aggregate_ts product end secs [] = refl
  aggregate_ts product end secs (t ∷ ts) = refl

  -- The row of a product is the product's.
  pub rows_of-own :
      (interval : ℕ) (secs : ℤ) (product : String) (p : ProductTrades D)
      (rows : List (TradesAggRow D))
      → rows_of product (bucket_row interval secs product p ∷ rows)
        ≡ bucket_row interval secs product p ∷ rows_of product rows
  unfolding bucket_row
  rows_of-own interval secs product p rows = rw (aggregate_product, eq_refl product) refl

  pub rows_of-other :
      (interval : ℕ) (secs : ℤ) (product q : String) (p : ProductTrades D)
      (rows : List (TradesAggRow D))
      → str_eq product q ≡ false
      → rows_of q (bucket_row interval secs product p ∷ rows) ≡ rows_of q rows
  unfolding bucket_row
  rows_of-other interval secs product q p rows apart = rw (aggregate_product, apart) refl
