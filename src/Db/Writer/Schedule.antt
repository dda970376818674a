-- ===== src/Db/Writer/Schedule.antt =====
-- internal/db/writer.go: Submit, run, shutdown and Close, as the steps in which they interleave. Each
-- select is a step of its own: a Submit that has passed the check of `stop` is `submitting` until its
-- second select answers. The answers of the database to a flush are an input of the step.
use funding_carry.Prelude.{
  ℕ, zero, suc, List, [], ◌∷◌, ◌++◌, Option, none, some, Bool, true, ◌||◌, not, length,
  if◌then◌else◌,
}
use funding_carry.Prelude.Int.{pos, ltb_ℤ}
use funding_carry.Db.Rows.{Row}
use funding_carry.Db.Writer.State.{Writer, WriterOptions, new_writer, enqueue}
use funding_carry.Db.Writer.Send.{Database, SendError}
use funding_carry.Db.Writer.Flush.{Statement, FlushResult, panicked, failed, flushed, flush}

-- Where Run is, and how it ended.
pub data Phase : Type 0 where
  running : Phase
  draining : Phase
  ended : Option SendError → Phase
  crashed : Phase

-- `accepted` and `refused` are the rows whose Submit returned nil or an error, `landed` the statements
-- of the flushes that the database took, each the oldest first.
pub record System (D S : Type 0) : Type 0 where
  pub writer : Writer D S
  pub phase : Phase
  pub submitting : List (Row D S)
  pub accepted : List (Row D S)
  pub refused : List (Row D S)
  pub landed : List (Statement D S)

pub data Step (D S : Type 0) : Type 0 where
  -- A Submit's first select.
  submits : Row D S → Step D S
  -- The second select of the i-th Submit under way: on the queue, on `stop`, or on its context.
  enters : ℕ → Step D S
  gives_up : ℕ → Step D S
  cancels : ℕ → Step D S
  closes : Step D S
  -- Run's select: a row, a tick, or that `stop` or the context is done.
  receives : Database → Step D S
  ticks : Database → Step D S
  shuts : Bool → Step D S
  -- A round of shutdown's drain, and the final flush when the queue is empty.
  drains : Database → Step D S

-- The i-th of a list, and the others.
unfoldable pub pick {ℓ} : {A : Type ℓ} → ℕ → List A → Option (A × List A)
pick i [] = none
pick zero (x ∷ xs) = some (x, xs)
pick (suc i) (x ∷ xs) = elim (pick i xs) [ none ↦ none | some p ↦ some (p.0, x ∷ p.1) ]

module _ {D S : Type 0} where
  unfoldable pub new_system : WriterOptions → System D S
  new_system opts = record {
    writer = new_writer opts;
    phase = running;
    submitting = [];
    accepted = [];
    refused = [];
    landed = [];
  }

  abbrev pub stop : Writer D S → Writer D S
  stop w = record w { stopped = true }

  unfoldable pub submit : System D S → Row D S → System D S
  submit s r =
      if s.writer.stopped
      then record s { refused = s.refused ++ r ∷ [] }
      else record s { submitting = s.submitting ++ r ∷ [] }

  abbrev pub has_room : Writer D S → Bool
  has_room w = ltb_ℤ (pos (length w.rows)) w.opts.queue_size

  abbrev pub entered : Writer D S → Row D S → Writer D S
  entered w r = record w {
    rows = w.rows ++ r ∷ [];
    metrics = record (w.metrics) { queue_depth = length (w.rows ++ r ∷ []) };
  }

  unfoldable pub enter : System D S → Option (Row D S × List (Row D S)) → System D S
  enter s none = s
  enter s (some (r, others)) =
      if has_room s.writer
      then record s {
        writer = entered s.writer r;
        submitting = others;
        accepted = s.accepted ++ r ∷ [];
      }
      else s

  unfoldable pub refuse : System D S → Bool → Option (Row D S × List (Row D S)) → System D S
  refuse s ready none = s
  refuse s ready (some (r, others)) =
      if ready then record s { submitting = others; refused = s.refused ++ r ∷ [] } else s

  -- After a flush in `run`, and in `shutdown`: a fatal flush ends Run, which closes `stop`.
  unfoldable pub after_flush : System D S → Phase → FlushResult D S → System D S
  after_flush s next panicked = record s { phase = crashed }
  after_flush s next (failed e w) = record s { writer = stop w; phase = ended (some e) }
  after_flush s next (flushed w statements) = record s {
    writer = w;
    phase = next;
    landed = s.landed ++ statements;
  }

  abbrev pub without : Writer D S → List (Row D S) → Writer D S
  without w rows = record w { rows = rows }

  abbrev pub is_full : Writer D S → Bool
  is_full w = not (ltb_ℤ (pos w.pending) w.opts.batch_size)

  unfoldable pub receive : System D S → Database → List (Row D S) → System D S
  receive s db [] = s
  receive s db (r ∷ rows) =
      let w = enqueue (without s.writer rows) r in
      if is_full w then after_flush s running (flush db w) else record s { writer = w }

  unfoldable pub drain : System D S → Database → List (Row D S) → System D S
  drain s db [] = after_flush s (ended none) (flush db s.writer)
  drain s db (r ∷ rows) = record s { writer = enqueue (without s.writer rows) r }

  abbrev pub in_run : Phase → System D S → System D S → System D S
  in_run running s s' = s'
  in_run _ s s' = s

  abbrev pub in_drain : Phase → System D S → System D S → System D S
  in_drain draining s s' = s'
  in_drain _ s s' = s

  -- A step that cannot be taken leaves everything as it is.
  unfoldable pub step : System D S → Step D S → System D S
  step s (submits r) = submit s r
  step s (enters i) = enter s (pick i s.submitting)
  step s (gives_up i) = refuse s s.writer.stopped (pick i s.submitting)
  step s (cancels i) = refuse s true (pick i s.submitting)
  step s closes = record s { writer = stop s.writer }
  step s (receives db) = in_run s.phase s (receive s db s.writer.rows)
  step s (ticks db) = in_run s.phase s (after_flush s running (flush db s.writer))
  step s (shuts canceled) = in_run s.phase s (
      if s.writer.stopped || canceled
      then record s { writer = stop s.writer; phase = draining }
      else s)
  step s (drains db) = in_drain s.phase s (drain s db s.writer.rows)

  unfoldable pub run : System D S → List (Step D S) → System D S
  run s [] = s
  run s (e ∷ es) = run (step s e) es
