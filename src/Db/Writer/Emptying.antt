-- ===== src/Db/Writer/Emptying.antt =====
-- internal/db/writer.go: what `flush` queues of the batches, and what it leaves in them.
use funding_carry.Prelude.{
  List, [], ◌∷◌, ◌++◌, ◌≡◌, refl, Option, none, some, String, Bool, true, if◌then◌else◌, arith,
  Bool-cases, Option-cases, inl, inr,
}
use funding_carry.Prelude.Text.{str_eq, eq_iff, eq_refl}
use funding_carry.Dict.{lookup}
use funding_carry.Dict.Laws.{lookup-insert}
use funding_carry.Db.Writer.State.{TableBatch}
use funding_carry.Db.Writer.Flush.{
  Statement, statements_of, queue_all, emptied, empty_at, empty_all,
}
use funding_carry.Db.Writer.Filing.{
  statements_for, pending_for, held_for, has, is_some, IsFiled, statements_for-append,
  statements_of-for,
}

module _ {D S : Type 0} where
  -- The keys all have a batch.
  abbrev pub IsHeld : List String → List (String × TableBatch D S) → Type 0
  IsHeld order batches = (k : String) → has k order ≡ true → is_some (lookup k batches) ≡ true

  IsHeld-tail :
      (j : String) (js : List String) (batches : List (String × TableBatch D S))
      → IsHeld (j ∷ js) batches
      → IsHeld js batches
  IsHeld-tail j js batches h k t = h k (ground arith)

  held-head :
      (j : String) (js : List String) (batches : List (String × TableBatch D S))
      → IsHeld (j ∷ js) batches
      → (b : TableBatch D S) × (lookup j batches ≡ some b)
  held-head j js batches h = elim (Option-cases (lookup j batches)) [
    | inl missing ↦ cc (rw missing at (h j (rw (eq_refl j) refl)))
    | inr found ↦ found
  ]

  -- A flush reads no batch that is not there, and queues just what is held.
  pub queue_all_total :
      (order : List String) (batches : List (String × TableBatch D S))
      → IsHeld order batches
      → (statements : List (Statement D S)) × (queue_all order batches ≡ some statements)
        × ((stmt : String) → statements_for stmt statements ≡ pending_for stmt order batches)
  unfolding queue_all pending_for
  queue_all_total [] batches h = ([], refl, λ stmt. refl)
  queue_all_total (j ∷ js) batches h =
      let (b, found) = held-head j js batches h in
      let (later, queued, same) = queue_all_total js batches (IsHeld-tail j js batches h) in
      (
        statements_of b ++ later,
        rw (queue_all, found, queued) refl,
        λ stmt.
            rw
              (
                statements_for-append stmt (statements_of b) later,
                statements_of-for stmt b.stmt b.table b.values,
                same stmt,
                found,
              )
              refl,
      )

  abbrev emptied_or : Bool → Option (TableBatch D S) → Option (TableBatch D S)
  emptied_or now none = none
  emptied_or now (some b) = some (if now then emptied b else b)

  lookup-empty_at :
      (k j : String) (batches : List (String × TableBatch D S))
      → lookup k (empty_at j (lookup j batches) batches)
        ≡ emptied_or (str_eq j k) (lookup k batches)
  lookup-empty_at k j batches = elim (Bool-cases (str_eq j k)) [
    | inl e ↦ elim (Option-cases (lookup j batches)) [
      | inl missing ↦ rw (e, missing, empty_at, ← (eq_iff j k).0 e, missing) refl
      | inr (b, found) ↦ rw (e, found, empty_at, lookup-insert, e, ← (eq_iff j k).0 e, found) refl
    ]
    | inr e ↦ elim (Option-cases (lookup j batches)) [
      | inl missing ↦ rw (e, missing, empty_at) (ground (arith))
      | inr (b, found) ↦ rw (e, found, empty_at, lookup-insert, e) (ground (arith))
    ]
  ]

  lookup-empty_all :
      (k : String) (order : List String) (batches : List (String × TableBatch D S))
      → lookup k (empty_all order batches) ≡ emptied_or (has k order) (lookup k batches)
  unfolding empty_all
  lookup-empty_all k [] batches = ground arith
  lookup-empty_all k (j ∷ js) batches =
      rw (lookup-empty_all k js, lookup-empty_at k j batches) (ground arith)

  is_some-emptied_or :
      (now : Bool) (o : Option (TableBatch D S)) → is_some (emptied_or now o) ≡ is_some o
  is_some-emptied_or now none = refl
  is_some-emptied_or now (some b) = refl

  emptied_or-stmt :
      (now : Bool) (o : Option (TableBatch D S)) (c : TableBatch D S)
      → emptied_or now o ≡ some c
      → (b : TableBatch D S) × (o ≡ some b) × (b.stmt ≡ c.stmt)
  emptied_or-stmt now none c h = cc
  emptied_or-stmt now (some b) c h = (b, refl, ground arith)

  pub empty_all-IsFiled :
      (order : List String) (batches : List (String × TableBatch D S))
      → IsFiled order batches
      → IsFiled order (empty_all order batches)
  empty_all-IsFiled order batches f = record {
    listed = λ k. rw (lookup-empty_all, is_some-emptied_or) (f.listed k);
    named = λ k c h.
        let (b, found, same) =
          emptied_or-stmt (has k order) (lookup k batches) c (rw lookup-empty_all at h) in
        rw (← same) (f.named k b found);
    distinct = f.distinct;
  }

  held_for-emptied :
      (stmt : String) (o : Option (TableBatch D S)) → held_for stmt (emptied_or true o) ≡ []
  held_for-emptied stmt none = refl
  held_for-emptied stmt (some b) = ground arith

  pending_for-nothing :
      (stmt : String) (order : List String) (batches : List (String × TableBatch D S))
      → ((k : String) → has k order ≡ true → held_for stmt (lookup k batches) ≡ [])
      → pending_for stmt order batches ≡ []
  unfolding pending_for
  pending_for-nothing stmt [] batches h = refl
  pending_for-nothing stmt (j ∷ js) batches h =
      rw (h j (rw (eq_refl j) refl))
        (pending_for-nothing stmt js batches (λ k t. h k (ground arith)))

  pub pending_for-empty_all :
      (stmt : String) (order : List String) (batches : List (String × TableBatch D S))
      → pending_for stmt order (empty_all order batches) ≡ []
  pending_for-empty_all stmt order batches =
      pending_for-nothing stmt order (empty_all order batches)
        (λ k t. rw (lookup-empty_all, t) (held_for-emptied stmt (lookup k batches)))
