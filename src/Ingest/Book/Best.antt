-- ===== src/Ingest/Book/Best.antt =====
-- internal/ingest/book.go: what `top` and `best` give, whatever the order of Go's iteration.
use funding_carry.Prelude.{
  ℕ, suc, List, [], ◌∷◌, ◌≡◌, ◌≢◌, ap, sym, if◌then◌else◌, take, some, String, Bool, arith, true,
  false, All, inl, inr, Bool-cases, ◌∙◌,
}
use funding_carry.Prelude.Sort.{Decided, AllPairs, sort_perm, sort-IsSorted, IsSorted, sort-All}
use mathlib.Core.List.{Permᴰ}
use mathlib.Core.Option.{some-injective}
use mathlib.Core.Path.{subst}
use funding_carry.Decimal.{Decimal, OrderLaws, equal, greater_than, less_than}
use funding_carry.Dict.{values}
use funding_carry.Ingest.Book.{Level, Book, new_book, ahead, best_first, top, best, apply_all}
use funding_carry.Ingest.Book.Top.{
  ahead-IsStrictWeak, ahead-Decided, IsCanonical, IsFiled, apply_all-IsFiled,
}

module _ {D : Type 0} ⦃dec : Decimal D⦄ (laws : OrderLaws dec) where
  module _ (key : D → String) (canonical : IsCanonical key) (descending : Bool) where
    level-Decided :
        (l v : Level D) (j k : String)
        → j ≡ key l.px
        → k ≡ key v.px
        → k ≢ j
        → Decided (ahead descending) l v
    level-Decided l v j k p q n = elim (Bool-cases (equal l.px v.px)) [
      | inl e ↦ absurd (n (q ∙ sym ((canonical l.px v.px).1 e) ∙ sym p))
      | inr e ↦ ahead-Decided laws descending l v e
    ]

    levels-Decided :
        (l : Level D) (j : String) (m : List (String × Level D))
        → j ≡ key l.px
        → All (λ e. e.0 ≢ j) m
        → IsFiled key m
        → All (Decided (ahead descending) l) (values m)
    unfolding values
    levels-Decided l j [] p h f = tt
    levels-Decided l j ((k, v) ∷ m) p h f =
        (level-Decided l v j k p f.0 h.0, levels-Decided l j m p h.1 f.2)

    -- The levels of a side have different prices, so any two of them are decided.
    values-Decided :
        (m : List (String × Level D))
        → IsFiled key m
        → AllPairs (Decided (ahead descending)) (values m)
    unfolding values
    values-Decided [] f = tt
    values-Decided ((k, l) ∷ m) f = (levels-Decided l k m f.0 f.1 f.2, values-Decided m f.2)

    best_first_perm :
        (m : List (String × Level D)) (levels : List (Level D)) (n : ℕ)
        → IsFiled key m
        → Permᴰ (values m) levels
        → best_first descending (values m) n ≡ best_first descending levels n
    unfolding best_first
    best_first_perm m levels n f p =
        ap (take n)
          (sort_perm (ahead descending) (ahead-IsStrictWeak laws descending) p (values-Decided m f))

  -- The top levels of a book after any updates do not depend on the order in which Go iterates over
  -- a side: any arrangement of its levels, sorted and cut, gives the same, for the bids and for the
  -- asks, if two prices have one rendering just when they are equal.
  pub top_perm :
      (key : D → String)
      → IsCanonical key
      → (updates : List (String × D × D)) (bids asks : List (Level D)) (n : ℕ)
      → Permᴰ (values (apply_all key new_book updates).bids) bids
      → Permᴰ (values (apply_all key new_book updates).asks) asks
      → (top (apply_all key new_book updates) "bid" n ≡ best_first true bids n)
        × (top (apply_all key new_book updates) "offer" n ≡ best_first false asks n)
  unfolding top
  top_perm key canonical updates bids asks n p q =
      let filed = apply_all-IsFiled key new_book updates (tt, tt) in
      (
        best_first_perm key canonical true _ bids n filed.0 p,
        best_first_perm key canonical false _ asks n filed.1 q,
      )

  -- A level that is ahead of the price `p`: above it for a bid, below it for an ask.
  abbrev pub beats : Bool → D → Level D → Bool
  beats descending p l = if descending then greater_than l.px p else less_than l.px p

  beats_self : (descending : Bool) (p : D) (l : Level D) → l.px ≡ p → beats descending p l ≡ false
  beats_self true p l e = ground (arith, laws.cmp_refl p)
  beats_self false p l e = ground (arith, laws.cmp_refl p)

  head-beats :
      (descending : Bool) (levels : List (Level D)) (n : ℕ) (p : D)
      → IsSorted (ahead descending) (ahead-IsStrictWeak laws descending) levels
      → best (take (suc n) levels) ≡ some p
      → All (λ l. beats descending p l ≡ false) levels
  unfolding best
  head-beats descending [] n p s e = tt
  head-beats descending (x ∷ xs) n p s e =
      let q = some-injective x.px p e in
      (beats_self descending p x q, subst (λ r. All (λ l. beats descending r l ≡ false) xs) q s.0)

  best_first-beats :
      (descending : Bool) (levels : List (Level D)) (n : ℕ) (p : D)
      → best (best_first descending levels (suc n)) ≡ some p
      → All (λ l. beats descending p l ≡ false) levels
  unfolding best_first
  best_first-beats descending levels n p e =
      let weak = ahead-IsStrictWeak laws descending in
      sort-All (ahead descending) (λ l. beats descending p l ≡ false) levels
        (head-beats descending _ n p (sort-IsSorted (ahead descending) weak levels) e)

  -- The touch of a snapshot, which has at least one level of each side: no bid of the book is above
  -- the best bid, and no ask below the best ask.
  pub best-top :
      (b : Book D) (n : ℕ) (bid ask : D)
      → best (top b "bid" (suc n)) ≡ some bid
      → best (top b "offer" (suc n)) ≡ some ask
      → All (λ l. greater_than l.px bid ≡ false) (values b.bids)
        × All (λ l. less_than l.px ask ≡ false) (values b.asks)
  unfolding top
  best-top b n bid ask e f = (
    best_first-beats true (values b.bids) n bid e,
    best_first-beats false (values b.asks) n ask f,
  )
