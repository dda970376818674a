-- ===== src/Db/Writer/Flush.antt =====
-- internal/db/writer.go: `flush`.
use funding_carry.Prelude.{
  ℕ, suc, ◌-◌, List, [], ◌∷◌, ◌++◌, map, Option, none, some, String, ◌⊎◌, inl, inr, length, ltb,
  ◌==◌, if◌then◌else◌,
}
use funding_carry.Prelude.Int.{ℤ, pos, negsuc}
use funding_carry.Dict.{lookup, insert}
use funding_carry.Db.Rows.Values.{Value}
use funding_carry.Db.Writer.State.{TableBatch, WriterMetrics, Writer, add_count}
use funding_carry.Db.Writer.Send.{Database, SendError, Counts, send_from}

-- A statement as `flush` queues it on the batch, with the table that it is for.
pub record Statement (D S : Type 0) : Type 0 where
  pub stmt : String
  pub table : String
  pub values : List (Value D S)

-- `panicked` is the read through a nil batch, were a key of `order` not in `batches`.
pub data FlushResult (D S : Type 0) : Type 0 where
  panicked : FlushResult D S
  failed : SendError → Writer D S → FlushResult D S
  -- The writer after it, and the statements that the database took.
  flushed : Writer D S → List (Statement D S) → FlushResult D S

abbrev attempts : ℤ → ℕ
attempts (pos n) = n
attempts (negsuc n) = 0

abbrev applied_to : String → Counts → ℕ
applied_to table applied = elim (lookup table applied) [ none ↦ 0 | some n ↦ n ]

-- The counters, from what each table was sent and what it took.
unfoldable pub observe_rows : Counts → Counts → WriterMetrics → WriterMetrics
observe_rows [] applied m = m
observe_rows ((table, n) ∷ queued) applied m =
    let took = applied_to table applied in
    let written = record m { rows_written = add_count table took m.rows_written } in
    observe_rows queued applied (
      if ltb took n
      then record written { rows_conflicted = add_count table (n - took) m.rows_conflicted }
      else written)

module _ {D S : Type 0} where
  abbrev pub statements_of : TableBatch D S → List (Statement D S)
  statements_of b = map (λ vs. record { stmt = b.stmt; table = b.table; values = vs }) b.values

  -- The statements of the batches under these keys.
  unfoldable pub queue_all :
      List String → List (String × TableBatch D S) → Option (List (Statement D S))
  queue_all [] batches = some []
  queue_all (key ∷ order) batches = elim (lookup key batches) [
    | none ↦ none
    | some b ↦ elim (queue_all order batches) [
      | none ↦ none
      | some later ↦ some (statements_of b ++ later)
    ]
  ]

  -- `queued`: how many rows each table is sent.
  unfoldable pub count_queued : List String → List (String × TableBatch D S) → Counts
  count_queued [] batches = []
  count_queued (key ∷ order) batches = elim (lookup key batches) [
    | none ↦ count_queued order batches
    | some b ↦ add_count b.table (length b.values) (count_queued order batches)
  ]

  abbrev pub emptied : TableBatch D S → TableBatch D S
  emptied b = record b { values = [] }

  abbrev pub empty_at :
      String
      → Option (TableBatch D S)
      → List (String × TableBatch D S)
      → List (String × TableBatch D S)
  empty_at key none batches = batches
  empty_at key (some b) batches = insert key (emptied b) batches

  -- The rows of every batch dropped.
  unfoldable pub empty_all :
      List String → List (String × TableBatch D S) → List (String × TableBatch D S)
  empty_all [] batches = batches
  empty_all (key ∷ order) batches = empty_all order (empty_at key (lookup key batches) batches)

  observed : Writer D S → Writer D S
  observed w = record w { metrics = record (w.metrics) { batch_count = suc w.metrics.batch_count } }

  unfoldable pub settle : Writer D S → List (Statement D S) → SendError ⊎ Counts → FlushResult D S
  unfolding observed
  settle w statements (inl e) = failed e (observed w)
  settle w statements (inr applied) =
      let m = observe_rows (count_queued w.order w.batches) applied (observed w).metrics in
      flushed
        (record w {
          batches = empty_all w.order w.batches;
          pending = 0;
          metrics = record m { queue_depth = length w.rows };
        })
        statements

  unfoldable pub flush : Database → Writer D S → FlushResult D S
  unfolding settle
  flush db w = if w.pending == 0 then flushed w [] else elim (queue_all w.order w.batches) [
    | none ↦ panicked
    | some statements ↦
        settle w statements
          (send_from db (map (λ s. s.table) statements) 1 (attempts w.opts.max_attempts))
  ]
