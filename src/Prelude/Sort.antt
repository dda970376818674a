-- ===== src/Prelude/Sort.antt =====
-- Go's sort.Slice, as an insertion sort: where the comparison decides every pair of the elements,
-- their sorted arrangement is one, and so the algorithm is of no account.
use mathlib.Core.Path.{◌≡◌, refl, ◌∙◌, subst, subst₂, ap₂}
use mathlib.Core.Logic.{◌⊎◌, inl, inr}
use mathlib.Core.Bool.{Bool, true, false}
use mathlib.Core.List.{List, [], ◌∷◌, Permᴰ}
use native.Mathlib.Omega.{arith}
use funding_carry.Prelude.Lists.{All}
use funding_carry.Prelude.Tests.{Bool-cases, if◌then◌else◌}

module _ {ℓ} {A : Type ℓ} (less : A → A → Bool) where
  unfoldable pub insert_sorted : A → List A → List A
  insert_sorted x [] = x ∷ []
  insert_sorted x (y ∷ ys) = if less y x then y ∷ insert_sorted x ys else x ∷ y ∷ ys

  unfoldable pub sort : List A → List A
  sort [] = []
  sort (x ∷ xs) = insert_sorted x (sort xs)

-- What sort.Slice asks of a comparison.
pub record IsStrictWeak {ℓ} {A : Type ℓ} (less : A → A → Bool) : Type ℓ where
  pub asymm : (a b : A) → less a b ≡ true → less b a ≡ false
  pub trans : (a b c : A) → less a b ≡ true → less b c ≡ true → less a c ≡ true
  pub not_trans : (a b c : A) → less a b ≡ false → less b c ≡ false → less a c ≡ false

-- The comparison decides the pair.
abbrev pub Decided {ℓ} : {A : Type ℓ} → (A → A → Bool) → A → A → Type 0
Decided less a b = (less a b ≡ true) ⊎ (less b a ≡ true)

module _ {ℓ} {A : Type ℓ} (less : A → A → Bool) (laws : IsStrictWeak less) where
  pub insert_sorted_comm :
      (x y : A) (l : List A)
      → Decided less x y
      → insert_sorted less x (insert_sorted less y l)
        ≡ insert_sorted less y (insert_sorted less x l)
  unfolding insert_sorted
  insert_sorted_comm x y [] d = ground (arith, laws.asymm x y, laws.asymm y x)
  insert_sorted_comm x y (z ∷ zs) d = ground (
    arith,
    laws.asymm x y,
    laws.asymm y x,
    laws.trans z x y,
    laws.trans z y x,
    laws.not_trans z x y,
    laws.not_trans z y x,
    insert_sorted_comm x y zs d,
  )

swap_sides : {P Q : Type 0} → P ⊎ Q → Q ⊎ P
swap_sides (inl p) = inr p
swap_sides (inr q) = inl q

-- A relation between every element and the later ones.
abbrev pub AllPairs {ℓ κ} : {A : Type ℓ} → (A → A → Type κ) → List A → Type κ
AllPairs R [] = Unit
AllPairs R (x ∷ xs) = All (R x) xs × AllPairs R xs

module _ {ℓ κ} {A : Type ℓ} where
  pub All-perm : (P : A → Type κ) {xs ys : List A} → Permᴰ xs ys → All P xs → All P ys
  All-perm P Permᴰ.nil h = tt
  All-perm P (Permᴰ.cons e p) h = (subst P e h.0, All-perm P p h.1)
  All-perm P (Permᴰ.swap e f) h = (subst P f h.1.0, (subst P e h.0, h.1.1))
  All-perm P (Permᴰ.trans p q) h = All-perm P q (All-perm P p h)

  pub AllPairs-perm :
      (R : A → A → Type κ)
      → ((a b : A) → R a b → R b a)
      → {xs ys : List A} → Permᴰ xs ys
      → AllPairs R xs
      → AllPairs R ys
  AllPairs-perm R sym_R Permᴰ.nil h = tt
  AllPairs-perm R sym_R (Permᴰ.cons {l₂ = m} e p) h =
      (subst (λ x. All (R x) m) e (All-perm (R _) p h.0), AllPairs-perm R sym_R p h.1)
  AllPairs-perm R sym_R (Permᴰ.swap {l = m} e f) h = (
    (subst₂ R f e (sym_R _ _ h.0.0), subst (λ x. All (R x) m) f h.1.0),
    (subst (λ x. All (R x) m) e h.0.1, h.1.1),
  )
  AllPairs-perm R sym_R (Permᴰ.trans p q) h = AllPairs-perm R sym_R q (AllPairs-perm R sym_R p h)

module _ {ℓ} {A : Type ℓ} (less : A → A → Bool) (laws : IsStrictWeak less) where
  -- Two arrangements of the same elements, any two of them decided, sort to one list.
  pub sort_perm :
      {xs ys : List A} → Permᴰ xs ys → AllPairs (Decided less) xs → sort less xs ≡ sort less ys
  unfolding sort
  sort_perm Permᴰ.nil h = refl
  sort_perm (Permᴰ.cons e p) h = ap₂ (insert_sorted less) e (sort_perm p h.1)
  sort_perm (Permᴰ.swap {a} {b} {l = l} e f) h =
      insert_sorted_comm less laws a b (sort less l) h.0.0
      ∙ (λ i. insert_sorted less (f i) (insert_sorted less (e i) (sort less l)))
  sort_perm (Permᴰ.trans p q) h =
      sort_perm p h ∙ sort_perm q (AllPairs-perm (Decided less) (λ a b. swap_sides) p h)

module _ {ℓ κ} {A : Type ℓ} (less : A → A → Bool) (P : A → Type κ) where
  pub All-insert_sorted : (x : A) (l : List A) → P x → All P l → All P (insert_sorted less x l)
  unfolding insert_sorted
  All-insert_sorted x [] p h = (p, tt)
  All-insert_sorted x (y ∷ ys) p h = elim (Bool-cases (less y x)) [
    | inl e ↦ rw e (h.0, All-insert_sorted x ys p h.1)
    | inr e ↦ rw e (p, (h.0, h.1))
  ]

  -- Sorting keeps what holds of all elements.
  pub All-sort : (l : List A) → All P l → All P (sort less l)
  unfolding sort
  All-sort [] h = tt
  All-sort (x ∷ xs) h = All-insert_sorted x (sort less xs) h.0 (All-sort xs h.1)

module _ {ℓ κ} {A : Type ℓ} (less : A → A → Bool) (P : A → Type κ) where
  insert_sorted-All : (x : A) (l : List A) → All P (insert_sorted less x l) → P x × All P l
  unfolding insert_sorted
  insert_sorted-All x [] h = h
  insert_sorted-All x (y ∷ ys) h = elim (Bool-cases (less y x)) [
    | inl e ↦
        let k = rw (e, insert_sorted) at h in
        let r = insert_sorted-All x ys k.1 in (r.0, (k.0, r.1))
    | inr e ↦ rw (e, insert_sorted) at h
  ]

  -- What holds of all elements once sorted held of them before.
  pub sort-All : (l : List A) → All P (sort less l) → All P l
  unfolding sort
  sort-All [] h = tt
  sort-All (x ∷ xs) h = let r = insert_sorted-All x (sort less xs) h in (r.0, sort-All xs r.1)

module _ {ℓ} {A : Type ℓ} (less : A → A → Bool) (laws : IsStrictWeak less) where
  -- No later element is less than an earlier one.
  abbrev pub IsSorted : List A → Type 0
  IsSorted l = AllPairs (λ x y. less y x ≡ false) l

  All-not_less :
      (x y : A) (l : List A)
      → less y x ≡ false
      → All (λ z. less z y ≡ false) l
      → All (λ z. less z x ≡ false) l
  All-not_less x y [] e h = tt
  All-not_less x y (z ∷ zs) e h = (laws.not_trans z y x h.0 e, All-not_less x y zs e h.1)

  insert_sorted-IsSorted : (x : A) (l : List A) → IsSorted l → IsSorted (insert_sorted less x l)
  unfolding insert_sorted
  insert_sorted-IsSorted x [] h = (tt, tt)
  insert_sorted-IsSorted x (y ∷ ys) h = elim (Bool-cases (less y x)) [
    | inl e ↦ rw e (
      All-insert_sorted less (λ z. less z y ≡ false) x ys (laws.asymm y x e) h.0,
      insert_sorted-IsSorted x ys h.1,
    )
    | inr e ↦ rw e ((e, All-not_less x y ys e h.0), h)
  ]

  pub sort-IsSorted : (l : List A) → IsSorted (sort less l)
  unfolding sort
  sort-IsSorted [] = tt
  sort-IsSorted (x ∷ xs) = insert_sorted-IsSorted x (sort less xs) (sort-IsSorted xs)
