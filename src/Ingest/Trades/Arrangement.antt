-- ===== src/Ingest/Trades/Arrangement.antt =====
-- internal/ingest/trades.go: the row of a bucket does not depend on the order in which its trades came.
use funding_carry.Prelude.{List, [], ◌∷◌, String, ◌≡◌, ◌≢◌, refl, ap, arith, All, length, suc, ◌∙◌}
use funding_carry.Prelude.Int.{ℤ}
use funding_carry.Prelude.Sort.{sort, IsStrictWeak, Decided, AllPairs, sort_perm}
use mathlib.Core.List.{Permᴰ}
use funding_carry.Clock.{Time}
use funding_carry.Decimal.{Decimal}
use funding_carry.Ingest.Trades.{TradeSample, earlier, aggregate, aggregate_sorted}

length_perm : {A : Type 0} {xs ys : List A} → Permᴰ xs ys → length xs ≡ length ys
length_perm Permᴰ.nil = refl
length_perm (Permᴰ.cons e p) = ap suc (length_perm p)
length_perm (Permᴰ.swap e f) = refl
length_perm (Permᴰ.trans p q) = length_perm p ∙ length_perm q

module _ {D : Type 0} where
  earlier-IsStrictWeak : IsStrictWeak (earlier {D = D})
  earlier-IsStrictWeak = record {
    asymm = λ a b h. ground arith;
    trans = λ a b c h k. ground arith;
    not_trans = λ a b c h k. ground arith;
  }

  earlier-Decided : (t u : TradeSample D) → t.at ≢ u.at → Decided earlier t u
  earlier-Decided t u n = ground arith

  -- The trades are at different times.
  abbrev pub IsApart : List (TradeSample D) → Type 0
  IsApart trades = AllPairs (λ t u. t.at ≢ u.at) trades

  All-Decided :
      (t : TradeSample D) (ts : List (TradeSample D))
      → All (λ u. t.at ≢ u.at) ts
      → All (Decided earlier t) ts
  All-Decided t [] h = tt
  All-Decided t (u ∷ us) h = (earlier-Decided t u h.0, All-Decided t us h.1)

  IsApart-Decided : (ts : List (TradeSample D)) → IsApart ts → AllPairs (Decided earlier) ts
  IsApart-Decided [] h = tt
  IsApart-Decided (t ∷ ts) h = (All-Decided t ts h.0, IsApart-Decided ts h.1)

module _ {D : Type 0} ⦃dec : Decimal D⦄ where
  aggregate-sort :
      (product : String) (end : Time) (bucket_secs : ℤ) (t u : TradeSample D)
      (ts us : List (TradeSample D))
      → sort earlier (t ∷ ts) ≡ sort earlier (u ∷ us)
      → aggregate product end bucket_secs (t ∷ ts) ≡ aggregate product end bucket_secs (u ∷ us)
  unfolding aggregate
  aggregate-sort product end bucket_secs t u ts us e =
      ap (aggregate_sorted product end bucket_secs) e

  -- Two arrivals of the same trades, at different times each, aggregate to the same row: the same
  -- volumes, average price and sweeps.
  pub aggregate_perm :
      (product : String) (end : Time) (bucket_secs : ℤ) (ts us : List (TradeSample D))
      → IsApart ts
      → Permᴰ ts us
      → aggregate product end bucket_secs ts ≡ aggregate product end bucket_secs us
  aggregate_perm product end bucket_secs [] [] h p = refl
  aggregate_perm product end bucket_secs (t ∷ ts) [] h p = absurd (omega (arith, length_perm p))
  aggregate_perm product end bucket_secs [] (u ∷ us) h p = absurd (omega (arith, length_perm p))
  aggregate_perm product end bucket_secs (t ∷ ts) (u ∷ us) h p =
      aggregate-sort product end bucket_secs t u ts us
        (sort_perm earlier earlier-IsStrictWeak p (IsApart-Decided (t ∷ ts) h))
