-- ===== src/Db/Writer/Enqueue.antt =====
-- internal/db/writer.go: what `enqueue` and `flush` keep of the batches.
use funding_carry.Prelude.{
  List, [], ◌∷◌, ◌++◌, ◌≡◌, refl, sym, ◌∙◌, subst, none, some, String, true, false, if◌then◌else◌,
  arith, Bool-cases, Option-cases, inl, inr,
}
use funding_carry.Prelude.Text.{str_eq, eq_iff, eq_refl}
use mathlib.Core.Option.{some-injective}
use funding_carry.Dict.{lookup, insert}
use funding_carry.Dict.Laws.{lookup-insert, lookup-insert_self}
use funding_carry.Db.Rows.{Row, shape, row_values}
use funding_carry.Db.Statement.{insert_statement, batch_key}
use funding_carry.Db.Statement.Keys.{batch_key-insert_statement}
use funding_carry.Db.Writer.State.{TableBatch, Writer, add_values, new_batch, file_under, enqueue}
use funding_carry.Db.Writer.Filing.{
  rows_for, pending_for, has, IsDistinct, IsNamed, IsFiled, pending_for-add_values,
  pending_for-append, pending_for-insert_other,
}

has-append :
    (k j : String) (order : List String)
    → has k (order ++ j ∷ []) ≡ (if has k order then true else str_eq j k)
has-append k j [] = ground arith
has-append k j (i ∷ is) = ground (arith, has-append k j is)

IsDistinct-append :
    (j : String) (order : List String)
    → IsDistinct order
    → has j order ≡ false
    → IsDistinct (order ++ j ∷ [])
IsDistinct-append j [] d h = (refl, tt)
IsDistinct-append j (i ∷ is) d h =
    ground (arith, has-append i j is, eq_iff i j, eq_iff j i, IsDistinct-append j is d.1)

module _ {D S : Type 0} where
  -- The statement of the batch that a row goes to is the row's.
  batch-stmt :
      {order : List String} {batches : List (String × TableBatch D S)} (r : Row D S)
      (b : TableBatch D S)
      → IsFiled order batches
      → lookup (batch_key (shape r)) batches ≡ some b
      → b.stmt ≡ insert_statement (shape r)
  batch-stmt r b f found =
      let (q, k, s) = f.named (batch_key (shape r)) b found in
      sym s
      ∙ (eq_iff _ _).0 (sym (batch_key-insert_statement q r) ∙ rw k (eq_refl (batch_key (shape r))))

  -- The rest of the invariant reads the batches only through what is filed.
  pending_for-file_new :
      (stmt : String) (w : Writer D S) (r : Row D S)
      → IsFiled w.order w.batches
      → lookup (batch_key (shape r)) w.batches ≡ none
      → pending_for stmt (file_under w r none).order (file_under w r none).batches
        ≡ pending_for stmt w.order w.batches ++ rows_for stmt (r ∷ [])
  unfolding file_under pending_for add_values
  pending_for-file_new stmt w r f missing =
      let key = batch_key (shape r) in
      let unlisted : has key w.order ≡ false = f.listed key ∙ rw missing refl in
      rw
        (
          pending_for-append stmt w.order (key ∷ []),
          pending_for-insert_other stmt key (add_values (new_batch r) (row_values r)) w.order
              w.batches unlisted,
          lookup-insert_self,
        )
        (elim (Bool-cases (str_eq (insert_statement (shape r)) stmt)) [
          | inl e ↦ rw e refl
          | inr e ↦ rw e refl
        ])

  pending_for-file_old :
      (stmt : String) (w : Writer D S) (r : Row D S) (b : TableBatch D S)
      → IsFiled w.order w.batches
      → lookup (batch_key (shape r)) w.batches ≡ some b
      → pending_for stmt (file_under w r (some b)).order (file_under w r (some b)).batches
        ≡ pending_for stmt w.order w.batches ++ rows_for stmt (r ∷ [])
  unfolding file_under
  pending_for-file_old stmt w r b f found =
      let key = batch_key (shape r) in
      pending_for-add_values stmt key b (row_values r) w.order w.batches found f.named f.distinct
        (f.listed key ∙ rw found refl)
      ∙ rw (batch-stmt r b f found) refl

  pub pending_for-enqueue :
      (stmt : String) (w : Writer D S) (r : Row D S)
      → IsFiled w.order w.batches
      → pending_for stmt (enqueue w r).order (enqueue w r).batches
        ≡ pending_for stmt w.order w.batches ++ rows_for stmt (r ∷ [])
  unfolding enqueue
  pending_for-enqueue stmt w r f = elim (Option-cases (lookup (batch_key (shape r)) w.batches)) [
    | inl missing ↦ rw missing (pending_for-file_new stmt w r f missing)
    | inr (b, found) ↦ rw found (pending_for-file_old stmt w r b f found)
  ]

  IsNamed-insert :
      (k : String) (b : TableBatch D S) (batches : List (String × TableBatch D S))
      → IsNamed D S k b.stmt
      → ((j : String) (c : TableBatch D S) → lookup j batches ≡ some c → IsNamed D S j c.stmt)
      → (j : String) (c : TableBatch D S) → lookup j (insert k b batches) ≡ some c
      → IsNamed D S j c.stmt
  IsNamed-insert k b batches n all j c h = elim (Bool-cases (str_eq k j)) [
    | inl e ↦
        let same : b ≡ c = some-injective _ _ (rw (lookup-insert, e) at h) in
        subst (λ i. IsNamed D S i c.stmt) ((eq_iff k j).0 e) (rw (← same) n)
    | inr e ↦ all j c (rw (lookup-insert, e) at h)
  ]

  pub enqueue-IsFiled :
      (w : Writer D S) (r : Row D S)
      → IsFiled w.order w.batches
      → IsFiled (enqueue w r).order (enqueue w r).batches
  unfolding enqueue file_under add_values
  enqueue-IsFiled w r f = elim (Option-cases (lookup (batch_key (shape r)) w.batches)) [
    | inl missing ↦
        rw (missing, file_under)
          (record {
            listed = λ k.
                rw (has-append, lookup-insert)
                  (ground (arith, f.listed k, eq_iff (batch_key (shape r)) k));
            named = IsNamed-insert _ _ w.batches (r, refl, refl) f.named;
            distinct =
                IsDistinct-append (batch_key (shape r)) w.order f.distinct
                  (f.listed _ ∙ rw missing refl);
          })
    | inr (b, found) ↦
        rw (found, file_under)
          (record {
            listed = λ k. rw lookup-insert (elim (Bool-cases (str_eq (batch_key (shape r)) k)) [
              | inl e ↦ rw e (f.listed k ∙ rw (← (eq_iff _ _).0 e, found) refl)
              | inr e ↦ rw e (f.listed k)
            ]);
            named = IsNamed-insert _ _ w.batches (f.named _ b found) f.named;
            distinct = f.distinct;
          })
  ]
