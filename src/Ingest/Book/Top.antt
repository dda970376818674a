-- ===== src/Ingest/Book/Top.antt =====
-- internal/ingest/book.go: the levels of a side, their prices distinct, and the best of them.
use funding_carry.Prelude.{
  List, [], ◌∷◌, ◌≡◌, ◌≢◌, ◌↔◌, refl, sym, String, Bool, true, false, arith, All, inl, inr,
  Bool-cases,
}
use funding_carry.Prelude.Text.{str_eq, eq_iff}
use funding_carry.Prelude.Sort.{IsStrictWeak, Decided}
use funding_carry.Decimal.{Decimal, OrderLaws, equal, is_zero}
use funding_carry.Decimal.Laws.{lt_flip, lt_asymm, lt_trans, not_lt_trans}
use funding_carry.Dict.{insert, delete}
use funding_carry.Ingest.Book.{
  Level, Book, BookSide, bid, offer, unrecognised, side_map, set_level, apply_to, apply, ahead,
  apply_all,
}

module _ {D : Type 0} ⦃dec : Decimal D⦄ where
  pub ahead-IsStrictWeak :
      OrderLaws dec → (descending : Bool) → IsStrictWeak (ahead {D = D} descending)
  ahead-IsStrictWeak laws true = record {
    asymm = λ a b h.
        ground (arith, lt_flip laws a.px b.px, lt_flip laws b.px a.px, lt_asymm laws b.px a.px);
    trans = λ a b c h k. ground (
      arith,
      lt_flip laws a.px b.px,
      lt_flip laws b.px c.px,
      lt_flip laws a.px c.px,
      lt_trans laws c.px b.px a.px,
    );
    not_trans = λ a b c h k. ground (
      arith,
      lt_flip laws a.px b.px,
      lt_flip laws b.px c.px,
      lt_flip laws a.px c.px,
      not_lt_trans laws c.px b.px a.px,
    );
  }
  ahead-IsStrictWeak laws false = record {
    asymm = λ a b. lt_asymm laws a.px b.px;
    trans = λ a b c. lt_trans laws a.px b.px c.px;
    not_trans = λ a b c. not_lt_trans laws a.px b.px c.px;
  }

  -- Two levels at different prices: one of them is ahead.
  pub ahead-Decided :
      OrderLaws dec
      → (descending : Bool) (l m : Level D) → equal l.px m.px ≡ false
      → Decided (ahead descending) l m
  ahead-Decided laws true l m h = ground (arith, laws.cmp_flip l.px m.px)
  ahead-Decided laws false l m h = ground (arith, laws.cmp_flip l.px m.px)

  -- What `String` promises: two decimals have one rendering just if they are equal.
  abbrev pub IsCanonical : (D → String) → Type 0
  IsCanonical key = (a b : D) → (key a ≡ key b) ↔ (equal a b ≡ true)

  module _ (key : D → String) where
    -- A side files its levels by the renderings of their prices, each once.
    abbrev pub IsFiled : List (String × Level D) → Type 0
    IsFiled [] = Unit
    IsFiled ((k, l) ∷ m) = (k ≡ key l.px) × All (λ e. e.0 ≢ k) m × IsFiled m

    insert_avoids :
        (j k : String) (l : Level D) (m : List (String × Level D))
        → k ≢ j
        → All (λ e. e.0 ≢ j) m
        → All (λ e. e.0 ≢ j) (insert k l m)
    unfolding insert
    insert_avoids j k l [] n h = (n, tt)
    insert_avoids j k l ((i, v) ∷ m) n h = elim (Bool-cases (str_eq i k)) [
      | inl e ↦ rw e (h.0, h.1)
      | inr e ↦ rw e (h.0, insert_avoids j k l m n h.1)
    ]

    insert-IsFiled :
        (l : Level D) (m : List (String × Level D)) → IsFiled m → IsFiled (insert (key l.px) l m)
    unfolding insert
    insert-IsFiled l [] h = (refl, tt, tt)
    insert-IsFiled l ((i, v) ∷ m) h = elim (Bool-cases (str_eq i (key l.px))) [
      | inl e ↦ rw e ((eq_iff i (key l.px)).0 e, h.1, h.2)
      | inr e ↦ rw e (
        h.0,
        insert_avoids i (key l.px) l m (λ q. cc ((eq_iff i (key l.px)).1 (sym q))) h.1,
        insert-IsFiled l m h.2,
      )
    ]

    delete_avoids :
        (j k : String) (m : List (String × Level D))
        → All (λ e. e.0 ≢ j) m
        → All (λ e. e.0 ≢ j) (delete k m)
    unfolding delete
    delete_avoids j k [] h = tt
    delete_avoids j k ((i, v) ∷ m) h = elim (Bool-cases (str_eq i k)) [
      | inl e ↦ rw e (delete_avoids j k m h.1)
      | inr e ↦ rw e (h.0, delete_avoids j k m h.1)
    ]

    delete-IsFiled : (k : String) (m : List (String × Level D)) → IsFiled m → IsFiled (delete k m)
    unfolding delete
    delete-IsFiled k [] h = tt
    delete-IsFiled k ((i, v) ∷ m) h = elim (Bool-cases (str_eq i k)) [
      | inl e ↦ rw e (delete-IsFiled k m h.2)
      | inr e ↦ rw e (h.0, delete_avoids i k m h.1, delete-IsFiled k m h.2)
    ]

    set_level-IsFiled :
        (m : List (String × Level D)) (px qty : D) → IsFiled m → IsFiled (set_level key m px qty)
    unfolding set_level
    set_level-IsFiled m px qty h = elim (Bool-cases (is_zero qty)) [
      | inl gone ↦ rw gone (delete-IsFiled (key px) m h)
      | inr there ↦ rw there (insert-IsFiled (record { px = px; qty = qty }) m h)
    ]

    apply_to-IsFiled :
        (b : Book D) (side : BookSide) (px qty : D)
        → IsFiled b.bids × IsFiled b.asks
        → IsFiled (apply_to key b side px qty).bids × IsFiled (apply_to key b side px qty).asks
    unfolding apply_to
    apply_to-IsFiled b bid px qty h = (set_level-IsFiled b.bids px qty h.0, h.1)
    apply_to-IsFiled b offer px qty h = (h.0, set_level-IsFiled b.asks px qty h.1)
    apply_to-IsFiled b unrecognised px qty h = h

    pub apply_all-IsFiled :
        (b : Book D) (updates : List (String × D × D))
        → IsFiled b.bids × IsFiled b.asks
        → IsFiled (apply_all key b updates).bids × IsFiled (apply_all key b updates).asks
    unfolding apply_all apply
    apply_all-IsFiled b [] h = h
    apply_all-IsFiled b ((side, px, qty) ∷ updates) h =
        apply_all-IsFiled (apply_to key b (side_map side) px qty) updates
          (apply_to-IsFiled b (side_map side) px qty h)
