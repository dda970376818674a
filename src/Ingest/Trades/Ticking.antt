-- ===== src/Ingest/Trades/Ticking.antt =====
-- internal/ingest/trades.go: a predicate that closing a bucket and admission keep holds after Tick.
use funding_carry.Prelude.{
  ℕ, zero, suc, ◌-◌, ◌≤◌, ◌≡◌, refl, ◌∙◌, ◌∷◌, [], List, Option, none, some, String, false,
  Bool-cases, Option-cases, inl, inr, subst,
}
use mathlib.Core.Option.{some-injective}
use funding_carry.Prelude.Int.{ℤ}
use funding_carry.Prelude.Text.{str_eq, eq_iff}
use funding_carry.Clock.{Time, is_zero_time}
use funding_carry.Dict
use funding_carry.Dict.Laws.{lookup-insert}
use funding_carry.Decimal.{Decimal}
use funding_carry.Db.Rows.Market.{TradesAggRow}
use funding_carry.Ingest.Trades.Handler.{ProductTrades, TradesHandler, SinkError}
use funding_carry.Ingest.Trades.Tick.{
  Closed, Ticked, elapsed, bucket_row, without_bucket, close_due, close_all, admit, closed_into,
  tick_product, unless_failed, tick_products, tick,
}
use funding_carry.Ingest.Trades.History.{rows_of, Keeps}
use funding_carry.Ingest.Trades.Products.{
  AllProducts, AllProducts-insert, rows_of-own, rows_of-other, next-IsPositive,
}

module _ {D : Type 0} ⦃dec : Decimal D⦄ (sink : TradesAggRow D → Option SinkError) {interval : ℕ}
    {secs : ℤ} (P : Time → String → ProductTrades D → List (TradesAggRow D) → Type 0)
    (keeps : Keeps interval secs P) where
  -- What closing a product's buckets does to the rows: the new ones are the product's.
  abbrev IsClosed : Time → String → List (TradesAggRow D) → Closed D → Type 0
  IsClosed now product rows closed =
      P now product closed.product (rows_of product closed.rows)
      × ((q : String) → str_eq product q ≡ false → rows_of q closed.rows ≡ rows_of q rows)

  close_due-keeps :
      (fuel : ℕ) (now : Time) (product : String) (p : ProductTrades D)
      (rows : List (TradesAggRow D)) (closed : Closed D)
      → close_due sink fuel interval secs product now p rows ≡ some closed
      → is_zero_time p.next ≡ false
      → P now product p (rows_of product rows)
      → IsClosed now product rows closed
  unfolding close_due
  close_due-keeps zero now product p rows closed e z h = cc
  close_due-keeps (suc fuel) now product p rows closed e z h =
      elim (Bool-cases (elapsed interval p.next now)) [
        | inr later ↦
            let same = some-injective _ _ (rw (later, close_due) at e) in
            subst (IsClosed now product rows) same (h, λ q apart. refl)
        | inl over ↦
            let row = bucket_row interval secs product p in
            let p' = without_bucket interval p in
            let h' : P now product p' (rows_of product (row ∷ rows)) =
              rw (rows_of-own interval secs product p rows)
                (keeps.closes now product p (rows_of product rows) over z h) in
            elim (Option-cases (sink row)) [
              | inr (err, failed) ↦
                  let same = some-injective _ _ (rw (over, close_due, failed) at e) in
                  subst (IsClosed now product rows) same
                    (h', λ q. rows_of-other interval secs product q p rows)
              | inl taken ↦
                  let (k, o) =
                    close_due-keeps fuel now product p' (row ∷ rows) closed
                      (rw (over, close_due, taken) at e) (next-IsPositive interval p z) h' in
                  (k, λ q apart. o q apart ∙ rows_of-other interval secs product q p rows apart)
            ]
      ]

  IsClosed-insert :
      (now : Time) (product : String) (state : List (String × ProductTrades D))
      (rows : List (TradesAggRow D)) (closed : Closed D)
      → IsClosed now product rows closed
      → AllProducts P now state rows
      → AllProducts P now (Dict.insert product closed.product state) closed.rows
  IsClosed-insert now product state rows closed k all q p e = elim (Bool-cases (str_eq product q)) [
    | inl same ↦
        let changed : closed.product ≡ p = some-injective _ _ (rw (lookup-insert, same) at e) in
        subst (λ s. P now s p (rows_of s closed.rows)) ((eq_iff product q).0 same)
          (subst (λ u. P now product u (rows_of product closed.rows)) changed k.0)
    | inr other ↦ rw (k.1 q other) (all q p (rw (lookup-insert, other) at e))
  ]

  closed_into-keeps :
      (now : Time) (t t' : Ticked D) (product : String) (closed : Option (Closed D))
      → ((c : Closed D) → closed ≡ some c → IsClosed now product t.rows c)
      → closed_into t product closed ≡ some t'
      → AllProducts P now t.state t.rows
      → AllProducts P now t'.state t'.rows
  closed_into-keeps now t t' product none k e all = cc
  closed_into-keeps now t t' product (some c) k e all =
      subst (λ u. AllProducts P now u.state u.rows) (some-injective _ _ e)
        (IsClosed-insert now product t.state t.rows c (k c refl) all)

  tick_product-keeps :
      (now : Time) (t t' : Ticked D) (product : String) (found : Option (ProductTrades D))
      → Dict.lookup product t.state ≡ found
      → tick_product sink interval secs now t product found ≡ some t'
      → AllProducts P now t.state t.rows
      → AllProducts P now t'.state t'.rows
  unfolding tick_product close_all
  tick_product-keeps now t t' product none l e all = cc
  tick_product-keeps now t t' product (some p) l e all = elim (Bool-cases (is_zero_time p.next)) [
    | inl new ↦
        subst (λ u. AllProducts P now u.state u.rows)
          (some-injective _ _ (rw (new, tick_product) at e))
          (AllProducts-insert P now t.state t.rows product (admit interval now p)
            (keeps.admits now product p (rows_of product t.rows) new (all product p l)) all)
    | inr old ↦
        closed_into-keeps now t t' product _
          (λ c ends.
            close_due-keeps (suc (now - p.next)) now product p t.rows c ends old (all product p l))
          (rw (old, tick_product) at e) all
  ]

  tick_products-keeps :
      (now : Time) (products : List String) (t t' : Ticked D)
      → tick_products sink interval secs now products t ≡ some t'
      → AllProducts P now t.state t.rows
      → AllProducts P now t'.state t'.rows
  unfolding tick_products
  tick_products-keeps now [] t t' e all =
      subst (λ u. AllProducts P now u.state u.rows) (some-injective _ _ e) all
  tick_products-keeps now (product ∷ products) t t' e all =
      elim (Option-cases
        (tick_product sink interval secs now t product (Dict.lookup product t.state))) [
          | inl stuck ↦ cc (rw (stuck, tick_products) at e)
          | inr (u, ticked) ↦
              let next =
                tick_product-keeps now t u product (Dict.lookup product t.state) refl ticked all in
              let e' = rw (ticked, tick_products) at e in
              elim (Option-cases u.failure) [
                | inl fine ↦
                    tick_products-keeps now products u t' (rw (fine, unless_failed) at e') next
                | inr (err, failed) ↦
                    subst (λ v. AllProducts P now v.state v.rows)
                      (some-injective _ _ (rw (failed, unless_failed) at e')) next
              ]
        ]

  pub tick-keeps :
      (c now : Time) (h : TradesHandler D) (rows : List (TradesAggRow D)) (t : Ticked D)
      → c ≤ now
      → h.interval ≡ interval
      → h.bucket_secs ≡ secs
      → tick sink h now rows ≡ some t
      → AllProducts P c h.state rows
      → AllProducts P now t.state t.rows
  unfolding tick
  tick-keeps c now h rows t le i s e all =
      tick_products-keeps now h.products
        (record { state = h.state; rows = rows; errors = []; failure = none }) t
        (subst
          (λ n.
            tick_products sink n secs now h.products
              (record { state = h.state; rows = rows; errors = []; failure = none })
            ≡ some t)
          i
          (subst
            (λ m.
              tick_products sink h.interval m now h.products
                (record { state = h.state; rows = rows; errors = []; failure = none })
              ≡ some t)
            s e))
        (λ q p l. keeps.waits c now q p (rows_of q rows) le (all q p l))
