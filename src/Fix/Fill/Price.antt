-- ===== src/Fix/Fill/Price.antt =====
-- The price of a fill.
use funding_carry.Prelude.{◌≡◌, true, arith}
use funding_carry.Decimal.{Decimal, OrderLaws, less_than_or_equal}
use funding_carry.Prelude.Int.{negsuc}
use funding_carry.Decimal.Laws.{PriceLaws}
use funding_carry.Fix.Terms.{Side, buy, sell, Book}
use funding_carry.Fix.Fill.{marketable, exec_px}

module _ {D : Type 0} ⦃dec : Decimal D⦄ where
  -- A price between the touch and the limit: never better than the touch, never through the limit.
  abbrev pub Within : Side → D → Book D → D → Type 0
  Within buy limit_px b px =
      (less_than_or_equal b.ask px ≡ true) × (less_than_or_equal px limit_px ≡ true)
  Within sell limit_px b px =
      (less_than_or_equal limit_px px ≡ true) × (less_than_or_equal px b.bid ≡ true)

  -- A marketable order prints at a price that is no better than the touch and no worse than its
  -- limit, for a book of non-negative prices and a slippage that is not negative.
  pub exec_px-Within :
      OrderLaws dec
      → PriceLaws dec
      → (s : Side) (limit_px : D) (b : Book D) (slippage_bps : D)
      → less_than_or_equal dec.zero b.bid ≡ true
      → less_than_or_equal dec.zero b.ask ≡ true
      → less_than_or_equal dec.zero slippage_bps ≡ true
      → marketable s limit_px b ≡ true
      → Within s limit_px b (exec_px s limit_px b slippage_bps)
  unfolding marketable exec_px
  exec_px-Within laws prices buy limit_px b bps hb ha hs m =
      let slip = dec.shift bps (negsuc 3) in
      let k = dec.add dec.one slip in
      let grown =
        prices.mul_grows b.ask k ha
          (prices.add_grows dec.one slip (prices.shift_sign bps (negsuc 3) hs)) in
      ground (arith, grown, laws.cmp_refl limit_px, laws.cmp_flip limit_px (dec.mul b.ask k))
  exec_px-Within laws prices sell limit_px b bps hb ha hs m =
      let slip = dec.shift bps (negsuc 3) in
      let k = dec.sub dec.one slip in
      let shrunk =
        prices.mul_shrinks b.bid k hb
          (prices.sub_shrinks dec.one slip (prices.shift_sign bps (negsuc 3) hs)) in
      ground (
        arith,
        shrunk,
        laws.cmp_refl limit_px,
        laws.cmp_flip limit_px b.bid,
        laws.cmp_flip limit_px (dec.mul b.bid k),
      )
