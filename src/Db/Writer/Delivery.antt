-- ===== src/Db/Writer/Delivery.antt =====
-- internal/db/writer.go: what any interleaving of producers, Run and Close does with the rows.
use funding_carry.Prelude.{List, [], ◌∷◌, ◌++◌, ◌≡◌, ◌≢◌, refl, ◌∙◌, none, String}
use mathlib.Core.List.{append-nil}
use funding_carry.Db.Writer.State.{WriterOptions, new_writer}
use funding_carry.Db.Writer.Filing.{rows_for, statements_for, pending_for}
use funding_carry.Db.Writer.Conservation.{IsConserved}
use funding_carry.Db.Writer.Schedule.{System, Step, ended, crashed, new_system, step, run}
use funding_carry.Dict.{lookup}
use funding_carry.Db.Writer.Soundness.{IsSound, step-IsSound}

module _ {D S : Type 0} where
  run-IsSound : (s : System D S) (es : List (Step D S)) → IsSound s → IsSound (run s es)
  unfolding run
  run-IsSound s [] i = i
  run-IsSound s (e ∷ es) i = run-IsSound (step s e) es (step-IsSound s e i)

  new_system-IsSound : (opts : WriterOptions) → IsSound {D = D} {S = S} (new_system opts)
  unfolding new_system new_writer pending_for lookup
  new_system-IsSound opts = record {
    consistent = record {
      filed = record { listed = λ k. refl; named = λ k b found. cc; distinct = tt };
      idle = λ e stmt. refl;
    };
    conserved = λ stmt. refl;
    alive = tt;
    done = λ no. absurd no;
  }

  -- However producers, Run, its flushes and Close interleave, and however the database answers, Run
  -- never reads a batch that is not there, and for each statement the rows whose Submit returned nil are,
  -- in their order, those that the database took, then those in the batches, then those on the queue.
  pub run-IsConserved :
      (opts : WriterOptions) (es : List (Step D S))
      → ((run (new_system opts) es).phase ≢ crashed)
        × IsConserved
            (run (new_system opts) es).writer
            (run (new_system opts) es).accepted
            (run (new_system opts) es).landed
  run-IsConserved opts es =
      let i = run-IsSound (new_system opts) es (new_system-IsSound opts) in
      (λ e. rw e at i.alive, i.conserved)

  -- Once Run has returned without an error, the rows accepted for each statement are, in their order,
  -- those that the database took, but for the rows that a Submit has put on the queue and nobody reads.
  pub run-landed :
      (opts : WriterOptions) (es : List (Step D S)) (stmt : String)
      → (run (new_system opts) es).phase ≡ ended none
      → rows_for stmt (run (new_system opts) es).accepted
        ≡ statements_for stmt (run (new_system opts) es).landed
          ++ rows_for stmt (run (new_system opts) es).writer.rows
  run-landed opts es stmt e =
      let i = run-IsSound (new_system opts) es (new_system-IsSound opts) in
      i.conserved stmt ∙ rw (i.done (rw e tt) stmt) (simp append-nil)
