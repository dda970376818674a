-- ===== src/Exec/Tracker/Query/Arrangement.antt =====
-- The orders that a query returns do not depend on the order in which the map is walked.
use funding_carry.Prelude.{
  ◌≡◌, ◌≢◌, refl, subst, if◌then◌else◌, ◌∙◌, ◌⊎◌, inl, inr, List, [], ◌∷◌, String, Bool, true,
  false, arith, Bool-cases, All,
}
use mathlib.Core.Path.{subst₂}
use mathlib.Core.List.{Permᴰ}
use mathlib.Core.List.Permᴰ
use funding_carry.Prelude.Text.{str_lt}
use funding_carry.Prelude.Text.Order.{str_lt_asymm, str_lt_trans, str_lt_not_trans, eq_of_not_lt}
use funding_carry.Prelude.Sort.{sort_perm, IsStrictWeak, Decided, AllPairs}
use funding_carry.Exec.Status.{Status}
use funding_carry.Exec.Orders.{Tracked}
use funding_carry.Exec.Tracker.{Tracker}
use funding_carry.Exec.Tracker.Query.{earlier, kept, filter}

decided_text : (s t : String) → s ≢ t → (str_lt s t ≡ true) ⊎ (str_lt t s ≡ true)
decided_text s t n = elim (Bool-cases (str_lt s t)) [
  | inl h ↦ inl h
  | inr h ↦ elim (Bool-cases (str_lt t s)) [
    | inl k ↦ inr k
    | inr k ↦ absurd (n (eq_of_not_lt s t h k))
  ]
]

-- An element that is taken or not, in front of two arrangements.
if-cons-perm {ℓ} :
    {A : Type ℓ} (b : Bool) (x : A) {l m : List A}
    → Permᴰ l m
    → Permᴰ (if b then x ∷ l else l) (if b then x ∷ m else m)
if-cons-perm true x p = Permᴰ.cons refl p
if-cons-perm false x p = p

if-swap-perm {ℓ} :
    {A : Type ℓ} (b c : Bool) (x y : A) (l : List A)
    → Permᴰ
        (let m = if c then y ∷ l else l in if b then x ∷ m else m)
        (let m = if b then x ∷ l else l in if c then y ∷ m else m)
if-swap-perm true true x y l = Permᴰ.swap refl refl
if-swap-perm true false x y l = Permᴰ.refl _
if-swap-perm false c x y l = Permᴰ.refl _

module _ {D : Type 0} where
  earlier_asymm : (a b : Status D) → earlier a b ≡ true → earlier b a ≡ false
  unfolding earlier
  earlier_asymm a b h = ground (arith, str_lt_asymm a.cl_ord_id b.cl_ord_id)

  earlier_trans : (a b c : Status D) → earlier a b ≡ true → earlier b c ≡ true → earlier a c ≡ true
  unfolding earlier
  earlier_trans a b c h k = ground (arith, str_lt_trans a.cl_ord_id b.cl_ord_id c.cl_ord_id)

  earlier_not_trans :
      (a b c : Status D) → earlier a b ≡ false → earlier b c ≡ false → earlier a c ≡ false
  unfolding earlier
  earlier_not_trans a b c h k = ground (arith, str_lt_not_trans a.cl_ord_id b.cl_ord_id c.cl_ord_id)

  pub earlier-IsStrictWeak : IsStrictWeak (earlier {D = D})
  earlier-IsStrictWeak = record {
    asymm = earlier_asymm;
    trans = earlier_trans;
    not_trans = earlier_not_trans;
  }

  -- Two orders with different ids are decided.
  earlier-Decided : (a b : Status D) → a.cl_ord_id ≢ b.cl_ord_id → Decided earlier a b
  unfolding earlier
  earlier-Decided a b n = ground (arith, decided_text a.cl_ord_id b.cl_ord_id n)

  -- The entries of a map: each under its order's id, no two under one.
  abbrev pub IsMap : List (String × Tracked D) → Type 0
  IsMap m = All (λ e. e.1.status.cl_ord_id ≡ e.0) m × AllPairs (λ e f. e.0 ≢ f.0) m

  kept_apart :
      (keep : Status D → Bool) (x : Status D) (m : List (String × Tracked D))
      → All (λ e. e.1.status.cl_ord_id ≡ e.0) m
      → All (λ e. x.cl_ord_id ≢ e.0) m
      → All (Decided earlier x) (kept keep m)
  unfolding kept
  kept_apart keep x [] n d = tt
  kept_apart keep x ((k, o) ∷ m) n d =
      let rest = kept_apart keep x m n.1 d.1 in
      elim (Bool-cases (keep o.status)) [
        | inl h ↦ rw h (earlier-Decided x o.status (λ e. d.0 (e ∙ n.0)), rest)
        | inr h ↦ rw h rest
      ]

  kept-Decided :
      (keep : Status D → Bool) (m : List (String × Tracked D))
      → IsMap m
      → AllPairs (Decided earlier) (kept keep m)
  unfolding kept
  kept-Decided keep [] h = tt
  kept-Decided keep ((k, o) ∷ m) (n, d) =
      let rest = kept-Decided keep m (n.1, d.1) in
      elim (Bool-cases (keep o.status)) [
        | inl h ↦ rw h (kept_apart keep o.status m n.1 (rw n.0 d.0), rest)
        | inr h ↦ rw h rest
      ]

  kept_perm :
      (keep : Status D → Bool) {m n : List (String × Tracked D)}
      → Permᴰ m n
      → Permᴰ (kept keep m) (kept keep n)
  unfolding kept
  kept_perm keep Permᴰ.nil = Permᴰ.nil
  kept_perm keep (Permᴰ.cons {a} {l₁ = l} {l₂ = m} e p) =
      subst (λ b. Permᴰ (kept keep (a ∷ l)) (kept keep (b ∷ m))) e
        (if-cons-perm (keep a.1.status) a.1.status (kept_perm keep p))
  kept_perm keep (Permᴰ.swap {a} {b} {l = l} e f) =
      subst₂ (λ c d. Permᴰ (kept keep (a ∷ b ∷ l)) (kept keep (c ∷ d ∷ l))) f e
        (if-swap-perm (keep a.1.status) (keep b.1.status) a.1.status b.1.status (kept keep l))
  kept_perm keep (Permᴰ.trans p q) = Permᴰ.trans (kept_perm keep p) (kept_perm keep q)

  -- Two trackers that hold the same orders, in whatever order their maps are walked, answer every
  -- query of `filter` with the same list.
  pub filter_perm :
      (t u : Tracker D) (keep : Status D → Bool)
      → IsMap t.orders
      → Permᴰ t.orders u.orders
      → filter t keep ≡ filter u keep
  unfolding filter
  filter_perm t u keep h p =
      sort_perm earlier earlier-IsStrictWeak (kept_perm keep p) (kept-Decided keep t.orders h)
