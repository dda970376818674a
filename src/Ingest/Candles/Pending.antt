-- ===== src/Ingest/Candles/Pending.antt =====
-- internal/ingest/candles.go: the times that closed lists: each once, in order, and all of those before
-- the newest candle.
use funding_carry.Prelude.{
  ◌<◌, ◌≡◌, ◌==◌, refl, ◌∙◌, ◌∷◌, [], List, some, Bool, true, false, ◌||◌, arith, Bool-cases, inl,
  inr, All,
}
use funding_carry.Prelude.Sort.{sort, insert_sorted, AllPairs, All-insert_sorted, All-sort}
use funding_carry.Clock.{Time, before}
use funding_carry.TimeMap
use funding_carry.TimeMap.Laws.{AllEntries, AllEntries-insert, AllEntries-delete}
use funding_carry.Ingest.Candles.{starts_before}
use funding_carry.Db.Rows.Market.{BarRow}

abbrev pub member : Time → List Time → Bool
member t [] = false
member t (s ∷ starts) = (s == t) || member t starts

abbrev pub Ascending : List Time → Type 0
Ascending starts = AllPairs (λ (s t : Time). s < t) starts

abbrev pub Apart : Time → List Time → Type 0
Apart t starts = All (λ s. (s == t) ≡ false) starts

All-below :
    (t s : Time) (starts : List Time) → t < s → All (λ u. s < u) starts → All (λ u. t < u) starts
All-below t s [] lt h = tt
All-below t s (u ∷ starts) lt h = (omega (arith, h.0), All-below t s starts lt h.1)

insert_sorted-Ascending :
    (t : Time) (starts : List Time)
    → Apart t starts
    → Ascending starts
    → Ascending (insert_sorted before t starts)
unfolding insert_sorted
insert_sorted-Ascending t [] apart h = (tt, tt)
insert_sorted-Ascending t (s ∷ starts) apart h = elim (Bool-cases (before s t)) [
  | inl e ↦ rw e (
    All-insert_sorted before (λ u. s < u) t starts (ground arith) h.0,
    insert_sorted-Ascending t starts apart.1 h.1,
  )
  | inr e ↦ let lt : t < s = ground (arith, apart.0) in rw e ((lt, All-below t s starts lt h.0), h)
]

pub sort-Ascending :
    (starts : List Time)
    → AllPairs (λ (s t : Time). (t == s) ≡ false) starts
    → Ascending (sort before starts)
unfolding sort
sort-Ascending [] h = tt
sort-Ascending (s ∷ starts) h =
    insert_sorted-Ascending s (sort before starts)
      (All-sort before (λ t. (t == s) ≡ false) starts h.0) (sort-Ascending starts h.1)

member-insert_sorted :
    (t u : Time) (starts : List Time)
    → member u (insert_sorted before t starts) ≡ ((t == u) || member u starts)
unfolding insert_sorted
member-insert_sorted t u [] = refl
member-insert_sorted t u (s ∷ starts) = ground (arith, member-insert_sorted t u starts)

member-sort : (u : Time) (starts : List Time) → member u (sort before starts) ≡ member u starts
unfolding sort
member-sort u [] = refl
member-sort u (s ∷ starts) =
    ground (arith, member-insert_sorted s u (sort before starts), member-sort u starts)

module _ {D : Type 0} where
  -- A map: no key twice.
  abbrev pub Distinct : List (Time × BarRow D) → Type 0
  Distinct m = AllPairs (λ e f. (f.0 == e.0) ≡ false) m

  pub insert-Distinct :
      (k : Time) (row : BarRow D) (m : List (Time × BarRow D))
      → Distinct m
      → Distinct (TimeMap.insert k row m)
  unfolding TimeMap.insert
  insert-Distinct k row [] h = (tt, tt)
  insert-Distinct k row ((i, r) ∷ m) h = elim (Bool-cases (i == k)) [
    | inl e ↦ rw e h
    | inr e ↦ rw e (
      AllEntries-insert (λ at _. (at == i) ≡ false) k row m (ground arith) h.0,
      insert-Distinct k row m h.1,
    )
  ]

  pub delete-Distinct :
      (k : Time) (m : List (Time × BarRow D)) → Distinct m → Distinct (TimeMap.delete k m)
  unfolding TimeMap.delete
  delete-Distinct k [] h = tt
  delete-Distinct k ((i, r) ∷ m) h = elim (Bool-cases (i == k)) [
    | inl e ↦ rw e (delete-Distinct k m h.1)
    | inr e ↦ rw e (AllEntries-delete (λ at _. (at == i) ≡ false) k m h.0, delete-Distinct k m h.1)
  ]

  -- What holds of all keys holds of those before the newest.
  pub All-starts_before :
      (P : Time → Type 0) (newest : Time) (m : List (Time × BarRow D))
      → AllEntries (λ at _. P at) m
      → All P (starts_before newest m)
  unfolding starts_before
  All-starts_before P newest [] h = tt
  All-starts_before P newest ((i, r) ∷ m) h = elim (Bool-cases (before i newest)) [
    | inl e ↦ rw e (h.0, All-starts_before P newest m h.1)
    | inr e ↦ rw e (All-starts_before P newest m h.1)
  ]

  pub starts_before-old :
      (newest : Time) (m : List (Time × BarRow D)) → All (λ s. s < newest) (starts_before newest m)
  unfolding starts_before
  starts_before-old newest [] = tt
  starts_before-old newest ((i, r) ∷ m) = elim (Bool-cases (before i newest)) [
    | inl e ↦ rw e (ground arith, starts_before-old newest m)
    | inr e ↦ rw e (starts_before-old newest m)
  ]

  pub starts_before-apart :
      (newest : Time) (m : List (Time × BarRow D))
      → Distinct m
      → AllPairs (λ (s t : Time). (t == s) ≡ false) (starts_before newest m)
  unfolding starts_before
  starts_before-apart newest [] h = tt
  starts_before-apart newest ((i, r) ∷ m) h = elim (Bool-cases (before i newest)) [
    | inl e ↦
        rw e (
          All-starts_before (λ at. (at == i) ≡ false) newest m h.0,
          starts_before-apart newest m h.1,
        )
    | inr e ↦ rw e (starts_before-apart newest m h.1)
  ]

  -- Every key has a row.
  abbrev pub Found : List (Time × BarRow D) → Time → Type 0
  Found m at = (row : BarRow D) × TimeMap.lookup at m ≡ some row

  Found-cons :
      (k : Time) (row : BarRow D) (m : List (Time × BarRow D)) (starts : List Time)
      → All (Found m) starts
      → All (Found ((k, row) ∷ m)) starts
  unfolding TimeMap.lookup
  Found-cons k row m [] h = tt
  Found-cons k row m (s ∷ starts) ((r, found), h) = elim (Bool-cases (k == s)) [
    | inl e ↦ ((row, ground arith), Found-cons k row m starts h)
    | inr e ↦ ((r, ground arith), Found-cons k row m starts h)
  ]

  pub starts_before-Found :
      (newest : Time) (m : List (Time × BarRow D)) → All (Found m) (starts_before newest m)
  unfolding starts_before TimeMap.lookup
  starts_before-Found newest [] = tt
  starts_before-Found newest ((i, r) ∷ m) =
      let rest = Found-cons i r m (starts_before newest m) (starts_before-Found newest m) in
      elim (Bool-cases (before i newest)) [
        | inl e ↦ rw e ((r, ground arith), rest)
        | inr e ↦ rw e rest
      ]

  -- A key before the newest is listed.
  starts_before-member :
      (newest at : Time) (m : List (Time × BarRow D)) (row : BarRow D)
      → TimeMap.lookup at m ≡ some row
      → before at newest ≡ true
      → member at (starts_before newest m) ≡ true
  unfolding starts_before TimeMap.lookup
  starts_before-member newest at [] row e lt = cc
  starts_before-member newest at ((i, r) ∷ m) row e lt =
      ground (arith, starts_before-member newest at m row)

  pub sorted-member :
      (newest at : Time) (m : List (Time × BarRow D)) (row : BarRow D)
      → TimeMap.lookup at m ≡ some row
      → before at newest ≡ true
      → member at (sort before (starts_before newest m)) ≡ true
  sorted-member newest at m row e lt =
      member-sort at (starts_before newest m) ∙ starts_before-member newest at m row e lt
