-- ===== src/Ingest/Trades/Repeats.antt =====
-- internal/ingest/trades.go: the trade id is what makes a repeat free.
use funding_carry.Prelude.{
  ℕ, ◌≡◌, refl, sym, ◌∷◌, [], ◌++◌, List, some, String, true, arith, Bool-cases, Option-cases, inl,
  inr, subst, ◌||◌, ◌⊎◌, ◌==◌, ==_iff, ap,
}
use funding_carry.Prelude.Text.{eq_refl}
use funding_carry.Clock.{Time, is_zero_time, truncate, before}
use funding_carry.TimeMap
use funding_carry.Ingest.Trades.{TradeSample}
use funding_carry.Ingest.Trades.Handler.{
  ProductTrades, file_trade, TradeBucket, add_to, contains, bucket_or_new,
}
use funding_carry.TimeMap.Laws.{
  lookup-insert as lookup-insert_at, lookup-insert_self, insert-lookup,
}

contains_self : (id : String) (ids : List String) → contains id (id ∷ ids) ≡ true
contains_self id ids = rw (eq_refl id) refl

contains-cons :
    (id other : String) (ids : List String)
    → contains id ids ≡ true
    → contains id (other ∷ ids) ≡ true
contains-cons id other ids h = ground arith

module _ {D : Type 0} where
  -- The trade has no bucket any more, or none yet, or its bucket has seen it.
  abbrev IsSpent : Time → ProductTrades D → String → Type 0
  IsSpent start p id =
      ((is_zero_time p.next || before start p.next) ≡ true)
      ⊎ (contains id (bucket_or_new (TimeMap.lookup start p.open_buckets)).seen ≡ true)

  -- Trades filed one after another, as admitTrade does.
  unfoldable pub file_all : ℕ → ProductTrades D → List (String × TradeSample D) → ProductTrades D
  file_all interval p [] = p
  file_all interval p ((id, t) ∷ ts) = file_all interval (file_trade interval p id t) ts

  seen-add_to :
      (b : TradeBucket D) (id : String) (t : TradeSample D)
      → contains id (add_to b id t).seen ≡ true
  unfolding add_to
  seen-add_to b id t = elim (Bool-cases (contains id b.seen)) [
    | inl dup ↦ rw dup dup
    | inr new ↦ rw new (contains_self id b.seen)
  ]

  seen-add_to_other :
      (b : TradeBucket D) (id other : String) (t : TradeSample D)
      → contains id b.seen ≡ true
      → contains id (add_to b other t).seen ≡ true
  unfolding add_to
  seen-add_to_other b id other t h = elim (Bool-cases (contains other b.seen)) [
    | inl dup ↦ rw dup h
    | inr new ↦ rw new (contains-cons id other b.seen h)
  ]

  file_trade-spends :
      (interval : ℕ) (p : ProductTrades D) (id : String) (t : TradeSample D)
      → IsSpent (truncate t.at interval) (file_trade interval p id t) id
  unfolding file_trade
  file_trade-spends interval p id t =
      let start = truncate t.at interval in
      elim (Bool-cases (is_zero_time p.next || before start p.next)) [
        | inl out ↦ rw out (inl out)
        | inr late ↦ rw late (
            inr (
              rw (lookup-insert_self start _ p.open_buckets)
                (seen-add_to (bucket_or_new (TimeMap.lookup start p.open_buckets)) id t)))
      ]

  file_trade-keeps_IsSpent :
      (interval : ℕ) (start : Time) (p : ProductTrades D) (id other : String) (u : TradeSample D)
      → IsSpent start p id
      → IsSpent start (file_trade interval p other u) id
  unfolding file_trade
  file_trade-keeps_IsSpent interval start p id other u h =
      let at = truncate u.at interval in
      elim (Bool-cases (is_zero_time p.next || before at p.next)) [
        | inl out ↦ rw out h
        | inr late ↦ rw late (elim h [
          | inl gone ↦ inl gone
          | inr seen ↦ inr (
              rw lookup-insert_at (elim (Bool-cases (at == start)) [
                | inl same ↦
                    rw (same, (==_iff at start).0 same)
                      (seen-add_to_other (bucket_or_new (TimeMap.lookup start p.open_buckets)) id
                        other u seen)
                | inr apart ↦ rw apart seen
              ]))
        ])
      ]

  file_all-keeps_IsSpent :
      (interval : ℕ) (start : Time) (p : ProductTrades D) (id : String)
      (ts : List (String × TradeSample D))
      → IsSpent start p id
      → IsSpent start (file_all interval p ts) id
  unfolding file_all
  file_all-keeps_IsSpent interval start p id [] h = h
  file_all-keeps_IsSpent interval start p id ((other, u) ∷ ts) h =
      file_all-keeps_IsSpent interval start (file_trade interval p other u) id ts
        (file_trade-keeps_IsSpent interval start p id other u h)

  seen_bucket :
      (start : Time) (buckets : List (Time × TradeBucket D)) (id : String)
      → contains id (bucket_or_new (TimeMap.lookup start buckets)).seen ≡ true
      → (b : TradeBucket D) × (TimeMap.lookup start buckets ≡ some b) × (contains id b.seen ≡ true)
  seen_bucket start buckets id h = elim (Option-cases (TimeMap.lookup start buckets)) [
    | inl missing ↦ cc (rw missing at h)
    | inr (b, found) ↦ (b, found, rw found at h)
  ]

  file_trade-spent :
      (interval : ℕ) (p : ProductTrades D) (id : String) (t : TradeSample D)
      → IsSpent (truncate t.at interval) p id
      → file_trade interval p id t ≡ p
  unfolding file_trade add_to
  file_trade-spent interval p id t (inl out) = rw out refl
  file_trade-spent interval p id t (inr seen) =
      let start = truncate t.at interval in
      elim (Bool-cases (is_zero_time p.next || before start p.next)) [
        | inl out ↦ rw out refl
        | inr late ↦
            let (b, found, held) = seen_bucket start p.open_buckets id seen in
            rw (late, found, held)
              (ap (λ m. record p { open_buckets = m }) (insert-lookup start b p.open_buckets found))
      ]

  file_all-append :
      (interval : ℕ) (p : ProductTrades D) (ts us : List (String × TradeSample D))
      → file_all interval p (ts ++ us) ≡ file_all interval (file_all interval p ts) us
  unfolding file_all
  file_all-append interval p [] us = refl
  file_all-append interval p ((id, t) ∷ ts) us =
      file_all-append interval (file_trade interval p id t) ts us

  file_all-spends :
      (interval : ℕ) (p : ProductTrades D) (id : String) (t : TradeSample D)
      (later : List (String × TradeSample D))
      → IsSpent (truncate t.at interval) (file_all interval p ((id, t) ∷ later)) id
  unfolding file_all
  file_all-spends interval p id t later =
      file_all-keeps_IsSpent interval (truncate t.at interval) (file_trade interval p id t) id later
        (file_trade-spends interval p id t)

  -- A trade that comes again under its id, in the same bucket, changes nothing, whatever trades came
  -- before the first time and in between, and whether or not its bucket is open.
  pub file_trade-repeated :
      (interval : ℕ) (p : ProductTrades D) (id : String) (t again : TradeSample D)
      (earlier later : List (String × TradeSample D))
      → truncate again.at interval ≡ truncate t.at interval
      → file_trade interval (file_all interval p (earlier ++ (id, t) ∷ later)) id again
        ≡ file_all interval p (earlier ++ (id, t) ∷ later)
  file_trade-repeated interval p id t again earlier later same =
      file_trade-spent interval (file_all interval p (earlier ++ (id, t) ∷ later)) id again (
        subst (λ s. IsSpent s (file_all interval p (earlier ++ (id, t) ∷ later)) id) (sym same)
          (subst (λ q. IsSpent (truncate t.at interval) q id)
            (sym (file_all-append interval p earlier ((id, t) ∷ later)))
            (file_all-spends interval (file_all interval p earlier) id t later)))
