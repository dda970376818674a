-- ===== src/Ingest/Trades/Induction.antt =====
-- internal/ingest/trades.go: a predicate that each part of the handler keeps holds over any history.
use funding_carry.Prelude.{
  ℕ, ◌≡◌, refl, sym, ◌∙◌, ◌∷◌, [], List, Option, none, some, String, Bool-cases, Option-cases, inl,
  inr, subst,
}
use mathlib.Core.Option.{some-injective}
use funding_carry.Prelude.Int.{ℤ}
use funding_carry.Clock.{Time, after}
use funding_carry.Dict
use funding_carry.Decimal.{Decimal}
use funding_carry.Db.Rows.Market.{TradesAggRow}
use funding_carry.Ingest.Level2.{HandleError, require_decimal}
use funding_carry.Ingest.Trades.{Aggressor, parse_aggressor}
use funding_carry.Ingest.Trades.Handler.{
  ProductTrades, TradesHandler, TradeWire, SinkError, Batch, filed, reset, admit_sided,
  admit_parsed, admit_trade, check_product, check_batch_order, handle_trade, handle_trades,
  handle_decoded, handle, new_product, add_products,
}
use funding_carry.Ingest.Trades.Tick.{tick}
use funding_carry.Ingest.Trades.History.{Op, handles, resets, ticks, IsClocked, rows_of, run, Keeps}
use funding_carry.Ingest.Trades.Products.{AllProducts, AllProducts-insert, lookup-reset_all}
use funding_carry.Ingest.Trades.Ticking.{tick-keeps}

module _ {D : Type 0} ⦃dec : Decimal D⦄ (parse : String → Option D)
    (sink : TradesAggRow D → Option SinkError) {interval : ℕ} {secs : ℤ}
    (P : Time → String → ProductTrades D → List (TradesAggRow D) → Type 0)
    (keeps : Keeps interval secs P) where
  admit_sided-keeps :
      (c : Time) (q : String) (p : ProductTrades D) (rows : List (TradesAggRow D)) (t : TradeWire)
      (px sz : D) (side : Option Aggressor)
      → P c q p rows
      → P c q (admit_sided parse interval p t px sz side).0 rows
  unfolding admit_sided
  admit_sided-keeps c q p rows t px sz none h = h
  admit_sided-keeps c q p rows t px sz (some side) h = keeps.files c q p rows t.trade_id _ h

  admit_parsed-keeps :
      (c : Time) (q : String) (p : ProductTrades D) (rows : List (TradesAggRow D)) (t : TradeWire)
      (px sz : Option D × List HandleError)
      → P c q p rows
      → P c q (admit_parsed parse interval p t px sz).0 rows
  unfolding admit_parsed
  admit_parsed-keeps c q p rows t (none, errs) sz h = h
  admit_parsed-keeps c q p rows t (some px, es) (none, errs) h = h
  admit_parsed-keeps c q p rows t (some px, es) (some sz, errs) h =
      admit_sided-keeps c q p rows t px sz (parse_aggressor t.side) h

  filed-keeps :
      (c : Time) (b : Batch D) (rows : List (TradesAggRow D)) (t : TradeWire)
      (admitted : ProductTrades D × List HandleError)
      → P c t.product_id admitted.0 (rows_of t.product_id rows)
      → AllProducts P c b.state rows
      → AllProducts P c (filed b t admitted).state rows
  filed-keeps c b rows t (p, []) h all = AllProducts-insert P c b.state rows t.product_id p h all
  filed-keeps c b rows t (p, e ∷ es) h all = all

  handle_trade-keeps :
      (c : Time) (b : Batch D) (rows : List (TradesAggRow D)) (t : TradeWire)
      → AllProducts P c b.state rows
      → AllProducts P c (handle_trade parse interval b t).state rows
  unfolding handle_trade admit_trade
  handle_trade-keeps c b rows t all = elim (Option-cases (Dict.lookup t.product_id b.state)) [
    | inl unknown ↦ rw (handle_trade, unknown) all
    | inr (p, found) ↦
        rw (handle_trade, found)
          (filed-keeps c b rows t (admit_trade parse interval p t)
            (admit_parsed-keeps c t.product_id p (rows_of t.product_id rows) t
              (require_decimal parse "price" t.price) (require_decimal parse "size" t.size)
              (all t.product_id p found))
            all)
  ]

  handle_trades-keeps :
      (c : Time) (b : Batch D) (rows : List (TradesAggRow D)) (ts : List TradeWire)
      → AllProducts P c b.state rows
      → AllProducts P c (handle_trades parse interval b ts).state rows
  unfolding handle_trades
  handle_trades-keeps c b rows [] all = all
  handle_trades-keeps c b rows (t ∷ ts) all =
      handle_trades-keeps c (handle_trade parse interval b t) rows ts
        (handle_trade-keeps c b rows t all)

  check_product-keeps :
      (c : Time) (rows : List (TradesAggRow D)) (product : String) (high : Time)
      (found : Option (ProductTrades D)) (state : List (String × ProductTrades D))
      → Dict.lookup product state ≡ found
      → AllProducts P c state rows
      → AllProducts P c (check_product product high found state).0 rows
  unfolding check_product
  check_product-keeps c rows product high none state e all = all
  check_product-keeps c rows product high (some p) state e all =
      elim (Bool-cases (after high p.batch_max)) [
        | inl up ↦ rw up (
            AllProducts-insert P c state rows product (record p { batch_max = high })
              (keeps.raises c product p (rows_of product rows) high (all product p e)) all)
        | inr down ↦ rw down all
      ]

  check_batch_order-keeps :
      (c : Time) (rows : List (TradesAggRow D)) (highs : List (String × Time))
      (state : List (String × ProductTrades D))
      → AllProducts P c state rows
      → AllProducts P c (check_batch_order highs state).0 rows
  unfolding check_batch_order
  check_batch_order-keeps c rows [] state all = all
  check_batch_order-keeps c rows ((product, high) ∷ highs) state all =
      check_batch_order-keeps c rows highs _
        (check_product-keeps c rows product high (Dict.lookup product state) state refl all)

  handle-keeps :
      (c : Time) (h : TradesHandler D) (rows : List (TradesAggRow D))
      (msg : Option (List TradeWire))
      → h.interval ≡ interval
      → AllProducts P c h.state rows
      → AllProducts P c (handle parse h msg).0.state rows
  unfolding handle handle_decoded
  handle-keeps c h rows none i all = all
  handle-keeps c h rows (some ts) i all = check_batch_order-keeps c rows _ _ (
      subst
        (λ n.
          AllProducts P c
            (handle_trades parse n (record { state = h.state; errors = []; seen_max = [] })
              ts).state
            rows)
        (sym i)
        (handle_trades-keeps c (record { state = h.state; errors = []; seen_max = [] }) rows ts
          all))

  reset-keeps :
      (c : Time) (h : TradesHandler D) (rows : List (TradesAggRow D))
      → AllProducts P c h.state rows
      → AllProducts P c (reset h).state rows
  unfolding reset
  reset-keeps c h rows all q p e =
      let (o, found, is) = lookup-reset_all q h.state p e in
      rw is (keeps.resets c q o (rows_of q rows) (all q o found))

  handle_config :
      (h : TradesHandler D) (msg : Option (List TradeWire))
      → ((handle parse h msg).0.interval ≡ h.interval)
        × ((handle parse h msg).0.bucket_secs ≡ h.bucket_secs)
  unfolding handle handle_decoded
  handle_config h none = (refl, refl)
  handle_config h (some ts) = (refl, refl)

  reset_config :
      (h : TradesHandler D)
      → ((reset h).interval ≡ h.interval) × ((reset h).bucket_secs ≡ h.bucket_secs)
  unfolding reset
  reset_config h = (refl, refl)

  -- What the handler has when the history ends or the sink fails.
  pub run-keeps :
      (c : Time) (h h' : TradesHandler D) (rows rows' : List (TradesAggRow D)) (ops : List Op)
      → h.interval ≡ interval
      → h.bucket_secs ≡ secs
      → IsClocked c ops
      → run parse sink h rows ops ≡ some (h', rows')
      → AllProducts P c h.state rows
      → (now : Time) × AllProducts P now h'.state rows'
  unfolding run
  run-keeps c h h' rows rows' [] i s k e all = (
    c,
    subst (λ (u : TradesHandler D × List (TradesAggRow D)). AllProducts P c u.0.state u.1)
        (some-injective _ _ e) all,
  )
  run-keeps c h h' rows rows' (handles msg ∷ ops) i s k e all =
      let same = handle_config h msg in
      run-keeps c (handle parse h msg).0 h' rows rows' ops (same.0 ∙ i) (same.1 ∙ s) k e
        (handle-keeps c h rows msg i all)
  run-keeps c h h' rows rows' (resets ∷ ops) i s k e all =
      run-keeps c (reset h) h' rows rows' ops ((reset_config h).0 ∙ i) ((reset_config h).1 ∙ s) k e
        (reset-keeps c h rows all)
  run-keeps c h h' rows rows' (ticks now ∷ ops) i s k e all =
      elim (Option-cases (tick sink h now rows)) [
        | inl stuck ↦ cc (rw (stuck, run) at e)
        | inr (t, ticked) ↦
            let next = tick-keeps sink P keeps c now h rows t k.0 i s ticked all in
            let e' = rw (ticked, run) at e in
            elim (Option-cases t.failure) [
              | inl fine ↦
                  run-keeps now (record h { state = t.state }) h' t.rows rows' ops i s k.1
                    (rw fine at e') next
              | inr (err, failed) ↦ (
                now,
                subst
                    (λ (u : TradesHandler D × List (TradesAggRow D)).
                      AllProducts P now u.0.state u.1)
                    (some-injective _ _ (rw failed at e')) next,
              )
            ]
      ]

  pub new_handler-products :
      (c : Time) (products : List String)
      → ((q : String) → P c q new_product [])
      → AllProducts P c (add_products {D = D} products) []
  unfolding add_products Dict.lookup
  new_handler-products c [] h q p e = cc
  new_handler-products c (q ∷ qs) h r p e =
      AllProducts-insert P c (add_products qs) [] q new_product (h q) (new_handler-products c qs h)
        r p e
