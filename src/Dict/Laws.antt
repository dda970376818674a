-- ===== src/Dict/Laws.antt =====
-- Lookups after a write and after a deletion, and predicates on all entries.
use funding_carry.Prelude.{
  ◌≡◌, refl, List, [], ◌∷◌, none, some, String, if◌then◌else◌, arith, All, inl, inr, Bool-cases,
}
use mathlib.Core.Option.{some-injective}
use mathlib.Core.Path.{subst₂}
use funding_carry.Prelude.Text.{str_eq, eq_iff, eq_refl}
use funding_carry.Dict.{lookup, insert, delete}

module _ {ℓ} {V : Type ℓ} where
  pub lookup-insert :
      (written asked : String) (new : V) (entries : List (String × V))
      → lookup asked (insert written new entries)
        ≡ (if str_eq written asked then some new else lookup asked entries)
  unfolding lookup insert
  lookup-insert written asked new [] = refl
  lookup-insert written asked new ((name, held) ∷ others) = ground (
    arith,
    lookup-insert written asked new others,
    eq_iff name asked,
    eq_iff name written,
    eq_iff written asked,
  )

  pub lookup-delete :
      (k j : String) (m : List (String × V))
      → lookup j (delete k m) ≡ (if str_eq k j then none else lookup j m)
  unfolding lookup delete
  lookup-delete k j [] = ground arith
  lookup-delete k j ((i, w) ∷ m) =
      ground (arith, eq_iff k j, eq_iff i k, eq_iff i j, lookup-delete k j m)

  pub lookup-insert_self :
      (written : String) (new : V) (entries : List (String × V))
      → lookup written (insert written new entries) ≡ some new
  lookup-insert_self written new entries = simp (eq_refl, lookup-insert)

  -- A deletion takes back the insertion of a key that was not there.
  pub delete-insert :
      (k : String) (v : V) (m : List (String × V)) → lookup k m ≡ none → delete k (insert k v m) ≡ m
  unfolding lookup insert delete
  delete-insert k v [] h = ground (arith, eq_refl k)
  delete-insert k v ((i, w) ∷ m) h = ground (arith, delete-insert k v m)

  -- A second write to a key replaces the first.
  pub insert-insert :
      (k : String) (v w : V) (m : List (String × V)) → insert k w (insert k v m) ≡ insert k w m
  unfolding insert
  insert-insert k v w [] = ground (arith, eq_refl k)
  insert-insert k v w ((i, x) ∷ m) = ground (arith, insert-insert k v w m)

  -- To write what is there changes nothing.
  pub insert-lookup :
      (k : String) (v : V) (m : List (String × V)) → lookup k m ≡ some v → insert k v m ≡ m
  unfolding insert lookup
  insert-lookup k v [] e = cc
  insert-lookup k v ((i, w) ∷ m) e = ground (arith, insert-lookup k v m)

  module _ {κ} (P : String → V → Type κ) where
    -- What holds of every entry.
    abbrev pub AllEntries : List (String × V) → Type κ
    AllEntries m = All (λ e. P e.0 e.1) m

    pub AllEntries-insert :
        (k : String) (v : V) (m : List (String × V))
        → P k v
        → AllEntries m
        → AllEntries (insert k v m)
    unfolding insert
    AllEntries-insert k v [] p h = (p, tt)
    AllEntries-insert k v ((i, w) ∷ m) p h = elim (Bool-cases (str_eq i k)) [
      | inl e ↦ rw e (rw ((eq_iff i k).0 e) p, h.1)
      | inr e ↦ rw e (h.0, AllEntries-insert k v m p h.1)
    ]

    pub AllEntries-delete :
        (k : String) (m : List (String × V)) → AllEntries m → AllEntries (delete k m)
    unfolding delete
    AllEntries-delete k [] h = tt
    AllEntries-delete k ((i, w) ∷ m) h = elim (Bool-cases (str_eq i k)) [
      | inl e ↦ rw e (AllEntries-delete k m h.1)
      | inr e ↦ rw e (h.0, AllEntries-delete k m h.1)
    ]

    pub AllEntries-lookup :
        (k : String) (v : V) (m : List (String × V)) → lookup k m ≡ some v → AllEntries m → P k v
    unfolding lookup
    AllEntries-lookup k v [] e h = cc
    AllEntries-lookup k v ((i, w) ∷ m) e h = elim (Bool-cases (str_eq i k)) [
      | inl t ↦ subst₂ P ((eq_iff i k).0 t) (some-injective _ _ (rw (t, lookup) at e)) h.0
      | inr f ↦ AllEntries-lookup k v m (rw (f, lookup) at e) h.1
    ]
