-- ===== src/TimeMap/Laws.antt =====
-- Predicates on all entries, and lookups after a write and a deletion.
use funding_carry.Prelude.{
  List, [], ◌∷◌, ◌≡◌, refl, none, some, ◌==◌, ==_iff, if◌then◌else◌, arith, All, Bool-cases, inl,
  inr, sym, subst,
}
use mathlib.Core.Option.{some-injective}
use mathlib.Core.Path.{subst₂}
use funding_carry.Clock.{Time}
use funding_carry.TimeMap.{lookup, insert, delete}

module _ {ℓ} {V : Type ℓ} where
  pub lookup-insert :
      (written asked : Time) (new : V) (entries : List (Time × V))
      → lookup asked (insert written new entries)
        ≡ (if written == asked then some new else lookup asked entries)
  unfolding lookup insert
  lookup-insert written asked new [] = refl
  lookup-insert written asked new ((at, held) ∷ others) =
      ground (arith, lookup-insert written asked new others)

  pub lookup-delete :
      (gone asked : Time) (entries : List (Time × V))
      → lookup asked (delete gone entries) ≡ (if gone == asked then none else lookup asked entries)
  unfolding lookup delete
  lookup-delete gone asked [] = ground arith
  lookup-delete gone asked ((at, held) ∷ others) = ground (arith, lookup-delete gone asked others)

  pub lookup-insert_self :
      (written : Time) (new : V) (entries : List (Time × V))
      → lookup written (insert written new entries) ≡ some new
  lookup-insert_self written new entries = ground (arith, lookup-insert written written new entries)

  -- To write what is there changes nothing.
  pub insert-lookup :
      (at : Time) (v : V) (entries : List (Time × V))
      → lookup at entries ≡ some v
      → insert at v entries ≡ entries
  unfolding insert lookup
  insert-lookup at v [] e = cc
  insert-lookup at v ((other, w) ∷ entries) e = ground (arith, insert-lookup at v entries)

  module _ {κ} (P : Time → V → Type κ) where
    -- What holds of every entry.
    abbrev pub AllEntries : List (Time × V) → Type κ
    AllEntries m = All (λ e. P e.0 e.1) m

    pub AllEntries-insert :
        (k : Time) (v : V) (m : List (Time × V)) → P k v → AllEntries m → AllEntries (insert k v m)
    unfolding insert
    AllEntries-insert k v [] p h = (p, tt)
    AllEntries-insert k v ((i, w) ∷ m) p h = elim (Bool-cases (i == k)) [
      | inl e ↦ rw e (subst (λ j. P j v) (sym ((==_iff i k).0 e)) p, h.1)
      | inr e ↦ rw e (h.0, AllEntries-insert k v m p h.1)
    ]

    pub AllEntries-delete :
        (k : Time) (m : List (Time × V)) → AllEntries m → AllEntries (delete k m)
    unfolding delete
    AllEntries-delete k [] h = tt
    AllEntries-delete k ((i, w) ∷ m) h = elim (Bool-cases (i == k)) [
      | inl e ↦ rw e (AllEntries-delete k m h.1)
      | inr e ↦ rw e (h.0, AllEntries-delete k m h.1)
    ]

    pub AllEntries-lookup :
        (k : Time) (v : V) (m : List (Time × V)) → lookup k m ≡ some v → AllEntries m → P k v
    unfolding lookup
    AllEntries-lookup k v [] e h = cc
    AllEntries-lookup k v ((i, w) ∷ m) e h = elim (Bool-cases (i == k)) [
      | inl t ↦ subst₂ P ((==_iff i k).0 t) (some-injective _ _ (rw (t, lookup) at e)) h.0
      | inr f ↦ AllEntries-lookup k v m (rw (f, lookup) at e) h.1
    ]
