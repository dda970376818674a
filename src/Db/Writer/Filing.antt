-- ===== src/Db/Writer/Filing.antt =====
-- internal/db/writer.go: what is filed under a statement, by `enqueue` and over a flush.
use funding_carry.Prelude.{
  List, [], ◌∷◌, ◌++◌, map, ◌≡◌, refl, sym, ◌∙◌, ap, subst, Option, none, some, String, Bool, true,
  false, if◌then◌else◌, arith, Bool-cases, Option-cases, inl, inr,
}
use funding_carry.Prelude.Text.{str_eq, eq_iff}
use mathlib.Core.List.{append_assoc, append-nil}
use funding_carry.Dict.{lookup, insert}
use funding_carry.Dict.Laws.{lookup-insert, lookup-insert_self}
use funding_carry.Db.Rows.{Row, shape, row_values}
use funding_carry.Db.Rows.Values.{Value}
use funding_carry.Db.Statement.{insert_statement, batch_key}
use funding_carry.Db.Statement.Keys.{batch_key-insert_statement}
use funding_carry.Db.Writer.State.{TableBatch, add_values}
use funding_carry.Db.Writer.Flush.{Statement}

module _ {D S : Type 0} where
  -- The values of the rows that the statement inserts, in their order.
  abbrev pub rows_for : String → List (Row D S) → List (List (Value D S))
  rows_for stmt [] = []
  rows_for stmt (r ∷ rs) =
      if str_eq (insert_statement (shape r)) stmt
      then row_values r ∷ rows_for stmt rs
      else rows_for stmt rs

  abbrev pub statements_for : String → List (Statement D S) → List (List (Value D S))
  statements_for stmt [] = []
  statements_for stmt (s ∷ ss) =
      if str_eq s.stmt stmt then s.values ∷ statements_for stmt ss else statements_for stmt ss

  pub rows_for-append :
      (stmt : String) (rs qs : List (Row D S))
      → rows_for stmt (rs ++ qs) ≡ rows_for stmt rs ++ rows_for stmt qs
  rows_for-append stmt [] qs = refl
  rows_for-append stmt (r ∷ rs) qs = ground (arith, rows_for-append stmt rs qs)

  pub statements_for-append :
      (stmt : String) (ss ts : List (Statement D S))
      → statements_for stmt (ss ++ ts) ≡ statements_for stmt ss ++ statements_for stmt ts
  statements_for-append stmt [] ts = refl
  statements_for-append stmt (s ∷ ss) ts = ground (arith, statements_for-append stmt ss ts)

  -- What a batch holds for a statement.
  abbrev pub batch_for : String → TableBatch D S → List (List (Value D S))
  batch_for stmt b = if str_eq b.stmt stmt then b.values else []

  pub statements_of-for :
      (stmt name table : String) (values : List (List (Value D S)))
      → statements_for stmt (map (λ vs. record { stmt = name; table = table; values = vs }) values)
        ≡ (if str_eq name stmt then values else [])
  statements_of-for stmt name table [] = ground arith
  statements_of-for stmt name table (v ∷ vs) = ground (arith, statements_of-for stmt name table vs)

  abbrev pub held_for : String → Option (TableBatch D S) → List (List (Value D S))
  held_for stmt none = []
  held_for stmt (some b) = batch_for stmt b

  -- What the batches under these keys hold for a statement.
  unfoldable pub pending_for :
      String → List String → List (String × TableBatch D S) → List (List (Value D S))
  pending_for stmt [] batches = []
  pending_for stmt (key ∷ order) batches =
      held_for stmt (lookup key batches) ++ pending_for stmt order batches

-- Whether the text is one of these.
abbrev pub has : String → List String → Bool
has k [] = false
has k (j ∷ js) = if str_eq j k then true else has k js

abbrev pub IsDistinct : List String → Type 0
IsDistinct [] = Unit
IsDistinct (k ∷ ks) = (has k ks ≡ false) × IsDistinct ks

abbrev pub is_some : {A : Type 0} → Option A → Bool
is_some none = false
is_some (some a) = true

-- Some row has this key and this statement.
abbrev pub IsNamed : (D S : Type 0) → String → String → Type 0
IsNamed D S key stmt =
    (r : Row D S) × (batch_key (shape r) ≡ key) × (insert_statement (shape r) ≡ stmt)

-- `order` lists the keys of `batches`, each once, and the statement of a batch is the one that its key
-- stands for.
pub record IsFiled {D S : Type 0} (order : List String) (batches : List (String × TableBatch D S))
    : Type 0 where
  pub listed : (k : String) → has k order ≡ is_some (lookup k batches)
  pub named : (k : String) (b : TableBatch D S) → lookup k batches ≡ some b → IsNamed D S k b.stmt
  pub distinct : IsDistinct order

module _ {D S : Type 0} where
  IsNamed-apart : (j k s t : String) → IsNamed D S j s → IsNamed D S k t → str_eq j k ≡ str_eq s t
  IsNamed-apart j k s t (r, a, b) (q, c, d) =
      rw (← a) (rw (← b) (rw (← c) (rw (← d) (batch_key-insert_statement r q))))

  pub pending_for-insert_other :
      (stmt k : String) (b : TableBatch D S) (order : List String)
      (batches : List (String × TableBatch D S))
      → has k order ≡ false
      → pending_for stmt order (insert k b batches) ≡ pending_for stmt order batches
  unfolding pending_for
  pending_for-insert_other stmt k b [] batches h = refl
  pending_for-insert_other stmt k b (j ∷ js) batches h = elim (Bool-cases (str_eq j k)) [
    | inl e ↦ cc (rw e at h)
    | inr e ↦
        let apart : str_eq k j ≡ false = ground (arith, eq_iff k j, eq_iff j k) in
        rw (lookup-insert, apart)
          (ap (λ t. held_for stmt (lookup j batches) ++ t)
            (pending_for-insert_other stmt k b js batches (rw e at h)))
  ]

  pub pending_for-append :
      (stmt : String) (order later : List String) (batches : List (String × TableBatch D S))
      → pending_for stmt (order ++ later) batches
        ≡ pending_for stmt order batches ++ pending_for stmt later batches
  unfolding pending_for
  pending_for-append stmt [] later batches = refl
  pending_for-append stmt (j ∷ js) later batches =
      rw (pending_for-append stmt js later batches) (simp append_assoc)

  -- The batches of other keys hold nothing for the statement of a key.
  pending_for-apart :
      (stmt k : String) (order : List String) (batches : List (String × TableBatch D S))
      → ((j : String) (b : TableBatch D S) → lookup j batches ≡ some b → IsNamed D S j b.stmt)
      → IsNamed D S k stmt
      → has k order ≡ false
      → pending_for stmt order batches ≡ []
  unfolding pending_for
  pending_for-apart stmt k [] batches all n h = refl
  pending_for-apart stmt k (j ∷ js) batches all n h = elim (Bool-cases (str_eq j k)) [
    | inl e ↦ cc (rw e at h)
    | inr e ↦
        let rest = pending_for-apart stmt k js batches all n (rw e at h) in
        elim (Option-cases (lookup j batches)) [
          | inl missing ↦ rw missing rest
          | inr (b, found) ↦
              rw (found, held_for)
                (rw (sym (IsNamed-apart j k b.stmt stmt (all j b found) n) ∙ e) rest)
        ]
  ]

  batch_for-add_values :
      (stmt : String) (b : TableBatch D S) (v : List (Value D S))
      → batch_for stmt (add_values b v)
        ≡ batch_for stmt b ++ (if str_eq b.stmt stmt then v ∷ [] else [])
  unfolding add_values
  batch_for-add_values stmt b v = ground arith

  -- The values filed for a statement come to the end of what is held for it.
  batch_for-then :
      (stmt : String) (b : TableBatch D S) (v : List (Value D S)) (later : List (List (Value D S)))
      → (str_eq b.stmt stmt ≡ true → later ≡ [])
      → batch_for stmt (add_values b v) ++ later
        ≡ batch_for stmt b ++ later ++ (if str_eq b.stmt stmt then v ∷ [] else [])
  batch_for-then stmt b v later h =
      rw batch_for-add_values (elim (Bool-cases (str_eq b.stmt stmt)) [
        | inl e ↦ rw (e, h e) (simp append-nil)
        | inr e ↦ rw e (simp append-nil)
      ])

  -- A row added to a batch in the list comes behind what is held for its statement.
  pub pending_for-add_values :
      (stmt k : String) (b : TableBatch D S) (v : List (Value D S)) (order : List String)
      (batches : List (String × TableBatch D S))
      → lookup k batches ≡ some b
      → ((j : String) (c : TableBatch D S) → lookup j batches ≡ some c → IsNamed D S j c.stmt)
      → IsDistinct order
      → has k order ≡ true
      → pending_for stmt order (insert k (add_values b v) batches)
        ≡ pending_for stmt order batches ++ (if str_eq b.stmt stmt then v ∷ [] else [])
  unfolding pending_for
  pending_for-add_values stmt k b v [] batches found all d h = cc
  pending_for-add_values stmt k b v (j ∷ js) batches found all d h =
      elim (Bool-cases (str_eq j k)) [
        | inl e ↦
            let same : j ≡ k = (eq_iff j k).0 e in
            rw same (
              rw
                (
                  lookup-insert_self,
                  pending_for-insert_other stmt k (add_values b v) js batches (rw same at d.0),
                  found,
                  held_for,
                )
                (batch_for-then stmt b v (pending_for stmt js batches) (λ t.
                  pending_for-apart stmt k js batches all
                    (subst (IsNamed D S k) ((eq_iff b.stmt stmt).0 t) (all k b found))
                    (rw same at d.0))))
        | inr e ↦
            let apart : str_eq k j ≡ false = ground (arith, eq_iff k j, eq_iff j k) in
            rw
              (
                lookup-insert,
                apart,
                pending_for-add_values stmt k b v js batches found all d.1 (rw e at h),
              )
              (simp append_assoc)
      ]
