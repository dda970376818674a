-- ===== src/Db/Writer/Conservation.antt =====
-- internal/db/writer.go: every row that a Submit accepted is in the database, in a batch or in the queue.
use funding_carry.Prelude.{
  List, [], ◌++◌, ◌≡◌, refl, sym, ◌∙◌, String, Bool-cases, inl, inr, ◌⊎◌, ◌==◌, ==_iff, ◌∷◌, suc,
  arith, Option-cases, ap,
}
use funding_carry.Dict.{lookup}
use funding_carry.Db.Statement.{batch_key}
use funding_carry.Db.Rows.{Row, shape}
use funding_carry.Db.Writer.State.{Writer, enqueue, file_under}
use funding_carry.Db.Writer.Send.{Database, SendError, Counts}
use funding_carry.Db.Writer.Flush.{Statement, FlushResult, panicked, failed, flushed, settle, flush}
use funding_carry.Db.Writer.Filing.{rows_for, statements_for, pending_for, IsFiled, rows_for-append}
use funding_carry.Db.Writer.Emptying.{queue_all_total, empty_all-IsFiled, pending_for-empty_all}
use funding_carry.Db.Writer.Enqueue.{enqueue-IsFiled, pending_for-enqueue}
use mathlib.Core.List.{append_assoc}

module _ {D S : Type 0} where
  -- The batches are filed, and hold nothing if `pending` is 0.
  pub record IsConsistent (w : Writer D S) : Type 0 where
    pub filed : IsFiled w.order w.batches
    pub idle : w.pending ≡ 0 → (stmt : String) → pending_for stmt w.order w.batches ≡ []

  -- For each statement, what was accepted is what landed, then what the batches hold, then the queue.
  abbrev pub IsConserved : Writer D S → List (Row D S) → List (Statement D S) → Type 0
  IsConserved w accepted landed =
      (stmt : String)
      → rows_for stmt accepted
        ≡ statements_for stmt landed ++ pending_for stmt w.order w.batches ++ rows_for stmt w.rows

  -- What a flush leaves: on a failure everything as it was; else the batches are empty, and what they
  -- held has landed. It never panics.
  abbrev pub Keeps : Writer D S → FlushResult D S → Type 0
  Keeps w panicked = ⊥
  Keeps w (failed e w') =
      IsConsistent w'
      × (w'.rows ≡ w.rows)
      × ((stmt : String)
          → pending_for stmt w'.order w'.batches ≡ pending_for stmt w.order w.batches)
  Keeps w (flushed w' statements) =
      IsConsistent w'
      × (w'.rows ≡ w.rows)
      × ((stmt : String) → statements_for stmt statements ≡ pending_for stmt w.order w.batches)
      × ((stmt : String) → pending_for stmt w'.order w'.batches ≡ [])

  settle-Keeps :
      (w : Writer D S) (statements : List (Statement D S)) (sent : SendError ⊎ Counts)
      → IsConsistent w
      → ((stmt : String) → statements_for stmt statements ≡ pending_for stmt w.order w.batches)
      → Keeps w (settle w statements sent)
  unfolding settle
  settle-Keeps w statements (inl e) c same =
      (record { filed = c.filed; idle = c.idle }, refl, λ stmt. refl)
  settle-Keeps w statements (inr applied) c same = (
    record {
      filed = empty_all-IsFiled w.order w.batches c.filed;
      idle = λ none_left stmt. pending_for-empty_all stmt w.order w.batches;
    },
    refl,
    same,
    λ stmt. pending_for-empty_all stmt w.order w.batches,
  )

  pub flush-Keeps : (db : Database) (w : Writer D S) → IsConsistent w → Keeps w (flush db w)
  unfolding flush
  flush-Keeps db w c = elim (Bool-cases (w.pending == 0)) [
    | inl e ↦
        let nothing = c.idle ((==_iff w.pending 0).0 e) in
        rw e (c, refl, λ stmt. sym (nothing stmt), nothing)
    | inr e ↦
        let (statements, queued, same) =
          queue_all_total w.order w.batches (λ k t. sym (c.filed.listed k) ∙ t) in
        rw (e, queued) (settle-Keeps w statements _ c same)
  ]

  pub enqueue_rows : (w : Writer D S) (r : Row D S) → (enqueue w r).rows ≡ w.rows
  unfolding enqueue file_under
  enqueue_rows w r = elim (Option-cases (lookup (batch_key (shape r)) w.batches)) [
    | inl missing ↦ rw (missing, file_under) refl
    | inr (b, found) ↦ rw (found, file_under) refl
  ]

  enqueue_pending : (w : Writer D S) (r : Row D S) → (enqueue w r).pending ≡ suc w.pending
  unfolding enqueue file_under
  enqueue_pending w r = elim (Option-cases (lookup (batch_key (shape r)) w.batches)) [
    | inl missing ↦ rw (missing, file_under) refl
    | inr (b, found) ↦ rw (found, file_under) refl
  ]

  pub enqueue-IsConsistent :
      (w : Writer D S) (r : Row D S) → IsConsistent w → IsConsistent (enqueue w r)
  enqueue-IsConsistent w r c = record {
    filed = enqueue-IsFiled w r c.filed;
    idle = λ e stmt. absurd (omega (arith, enqueue_pending w r));
  }

  -- A row that moves from the queue to its batch.
  pub enqueue-IsConserved :
      (w : Writer D S) (r : Row D S) (rows accepted : List (Row D S))
      (landed : List (Statement D S))
      → IsConsistent w
      → IsConserved (record w { rows = r ∷ rows }) accepted landed
      → IsConserved (enqueue (record w { rows = rows }) r) accepted landed
  enqueue-IsConserved w r rows accepted landed c h stmt =
      h stmt
      ∙ rw (enqueue_rows (record w { rows = rows }) r) (
          rw (pending_for-enqueue stmt (record w { rows = rows }) r c.filed) (
            ap (λ t. statements_for stmt landed ++ pending_for stmt w.order w.batches ++ t)
              (rows_for-append stmt (r ∷ []) rows)
            ∙ simp append_assoc))
