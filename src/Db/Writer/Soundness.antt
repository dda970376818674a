-- ===== src/Db/Writer/Soundness.antt =====
-- internal/db/writer.go: no step of producers, Run or Close loses a row.
use funding_carry.Prelude.{
  List, [], ◌∷◌, ◌++◌, ◌≡◌, refl, sym, ◌∙◌, ap, Option, none, some, String, Bool, true, false, ◌||◌,
  if◌then◌else◌,
}
use mathlib.Core.List.{append_assoc, append-nil}
use funding_carry.Db.Rows.{Row}
use funding_carry.Db.Writer.State.{Writer, enqueue}
use funding_carry.Db.Writer.Send.{Database}
use funding_carry.Db.Writer.Flush.{FlushResult, panicked, failed, flushed, flush}
use funding_carry.Db.Writer.Filing.{
  rows_for, statements_for, pending_for, rows_for-append, statements_for-append,
}
use funding_carry.Db.Writer.Conservation.{
  IsConsistent, IsConserved, Keeps, flush-Keeps, enqueue-IsConsistent, enqueue-IsConserved,
}
use funding_carry.Db.Writer.Schedule.{
  System, Step, Phase, running, draining, ended, crashed, submits, enters, gives_up, cancels,
  closes, receives, ticks, shuts, drains, pick, submit, enter, refuse, after_flush, receive, drain,
  step, entered, has_room, without, is_full, stop, in_run, in_drain,
}

-- Whether Run has ended without an error.
abbrev pub EndsClean : Phase → Type 0
EndsClean (ended none) = Unit
EndsClean _ = ⊥

abbrev pub NoCrash : Phase → Type 0
NoCrash crashed = ⊥
NoCrash _ = Unit

module _ {D S : Type 0} where
  pub record IsSound (s : System D S) : Type 0 where
    pub consistent : IsConsistent s.writer
    pub conserved : IsConserved s.writer s.accepted s.landed
    pub alive : NoCrash s.phase
    pub done :
        EndsClean s.phase → (stmt : String) → pending_for stmt s.writer.order s.writer.batches ≡ []

  IsSound-if : (b : Bool) {s t : System D S} → IsSound s → IsSound t → IsSound (if b then s else t)
  IsSound-if true h k = h
  IsSound-if false h k = k

  -- The rows under way and refused do not matter.
  IsSound-aside :
      {s : System D S} {submitting refused : List (Row D S)}
      → IsSound s
      → IsSound (record s { submitting = submitting; refused = refused })
  IsSound-aside i = record {
    consistent = i.consistent;
    conserved = i.conserved;
    alive = i.alive;
    done = i.done;
  }

  submit-IsSound : (s : System D S) (r : Row D S) → IsSound s → IsSound (submit s r)
  unfolding submit
  submit-IsSound s r i = IsSound-if s.writer.stopped (IsSound-aside i) (IsSound-aside i)

  refuse-IsSound :
      (s : System D S) (ready : Bool) (picked : Option (Row D S × List (Row D S)))
      → IsSound s
      → IsSound (refuse s ready picked)
  unfolding refuse
  refuse-IsSound s ready none i = i
  refuse-IsSound s ready (some (r, others)) i = IsSound-if ready (IsSound-aside i) i

  -- A row that a Submit puts on the queue.
  entered-IsSound :
      (s : System D S) (r : Row D S) (others : List (Row D S))
      → IsSound s
      → IsSound (record s {
        writer = entered s.writer r;
        submitting = others;
        accepted = s.accepted ++ r ∷ [];
      })
  entered-IsSound s r others i = record {
    consistent = record { filed = i.consistent.filed; idle = i.consistent.idle };
    conserved = λ stmt.
        rows_for-append stmt s.accepted (r ∷ [])
        ∙ ap (λ t. t ++ rows_for stmt (r ∷ [])) (i.conserved stmt)
        ∙ simp (rows_for-append stmt s.writer.rows (r ∷ []), append_assoc);
    alive = i.alive;
    done = i.done;
  }

  enter-IsSound :
      (s : System D S) (picked : Option (Row D S × List (Row D S)))
      → IsSound s
      → IsSound (enter s picked)
  unfolding enter
  enter-IsSound s none i = i
  enter-IsSound s (some (r, others)) i =
      IsSound-if (has_room s.writer) (entered-IsSound s r others i) i

  -- A flush from a sound system.
  after_flush-IsSound :
      (s : System D S) (next : Phase) (w : Writer D S) (result : FlushResult D S)
      → IsConserved w s.accepted s.landed
      → NoCrash next
      → Keeps w result
      → IsSound (after_flush s next result)
  unfolding after_flush
  after_flush-IsSound s next w panicked h a k = absurd k
  after_flush-IsSound s next w (failed e w') h a k = record {
    consistent = record { filed = k.0.filed; idle = k.0.idle };
    conserved = λ stmt. h stmt ∙ rw (← k.1) (rw (← k.2 stmt) refl);
    alive = tt;
    done = λ no. absurd no;
  }
  after_flush-IsSound s next w (flushed w' statements) h a k = record {
    consistent = k.0;
    conserved = λ stmt.
        h stmt
        ∙ (rw (statements_for-append stmt s.landed statements, k.2 stmt, k.3 stmt)
            (simp append-nil (
              ap
                (λ t.
                  statements_for stmt s.landed
                  ++ pending_for stmt w.order w.batches
                  ++ rows_for stmt t)
                (sym k.1))));
    alive = a;
    done = λ yes. k.3;
  }

  -- A row that Run takes off the queue into its batch.
  taken-IsConserved :
      (s : System D S) (r : Row D S) (rows : List (Row D S))
      → s.writer.rows ≡ r ∷ rows
      → IsSound s
      → IsConsistent (enqueue (without s.writer rows) r)
        × IsConserved (enqueue (without s.writer rows) r) s.accepted s.landed
  taken-IsConserved s r rows e i = (
    enqueue-IsConsistent (without s.writer rows) r
        (record { filed = i.consistent.filed; idle = i.consistent.idle }),
    enqueue-IsConserved s.writer r rows s.accepted s.landed i.consistent (λ stmt.
        i.conserved stmt
        ∙ ap
            (λ t.
              statements_for stmt s.landed
              ++ pending_for stmt s.writer.order s.writer.batches
              ++ rows_for stmt t)
            e),
  )

  receive-IsSound :
      (s : System D S) (db : Database) (rows : List (Row D S))
      → s.writer.rows ≡ rows
      → s.phase ≡ running
      → IsSound s
      → IsSound (receive s db rows)
  unfolding receive
  receive-IsSound s db [] e p i = i
  receive-IsSound s db (r ∷ rows) e p i =
      let w = enqueue (without s.writer rows) r in
      let (c, h) = taken-IsConserved s r rows e i in
      IsSound-if (is_full w)
        (after_flush-IsSound s running w (flush db w) h tt (flush-Keeps db w c))
        (record {
          consistent = c;
          conserved = h;
          alive = i.alive;
          done = λ yes. absurd (rw p at yes);
        })

  drain-IsSound :
      (s : System D S) (db : Database) (rows : List (Row D S))
      → s.writer.rows ≡ rows
      → s.phase ≡ draining
      → IsSound s
      → IsSound (drain s db rows)
  unfolding drain
  drain-IsSound s db [] e p i =
      after_flush-IsSound s (ended none) s.writer (flush db s.writer) i.conserved tt
        (flush-Keeps db s.writer i.consistent)
  drain-IsSound s db (r ∷ rows) e p i =
      let (c, h) = taken-IsConserved s r rows e i in
      record { consistent = c; conserved = h; alive = i.alive; done = λ yes. absurd (rw p at yes) }

  -- A step that is taken only while Run is there.
  in_run-IsSound :
      (p : Phase) (s t : System D S)
      → IsSound s
      → (p ≡ running → IsSound t)
      → IsSound (in_run p s t)
  in_run-IsSound running s t i k = k refl
  in_run-IsSound draining s t i k = i
  in_run-IsSound (ended e) s t i k = i
  in_run-IsSound crashed s t i k = i

  in_drain-IsSound :
      (p : Phase) (s t : System D S)
      → IsSound s
      → (p ≡ draining → IsSound t)
      → IsSound (in_drain p s t)
  in_drain-IsSound draining s t i k = k refl
  in_drain-IsSound running s t i k = i
  in_drain-IsSound (ended e) s t i k = i
  in_drain-IsSound crashed s t i k = i

  stop-IsConsistent : (w : Writer D S) → IsConsistent w → IsConsistent (stop w)
  stop-IsConsistent w c = record { filed = c.filed; idle = c.idle }

  pub step-IsSound : (s : System D S) (e : Step D S) → IsSound s → IsSound (step s e)
  unfolding step
  step-IsSound s (submits r) i = submit-IsSound s r i
  step-IsSound s (enters n) i = enter-IsSound s (pick n s.submitting) i
  step-IsSound s (gives_up n) i = refuse-IsSound s s.writer.stopped (pick n s.submitting) i
  step-IsSound s (cancels n) i = refuse-IsSound s true (pick n s.submitting) i
  step-IsSound s closes i = record {
    consistent = stop-IsConsistent s.writer i.consistent;
    conserved = i.conserved;
    alive = i.alive;
    done = i.done;
  }
  step-IsSound s (receives db) i =
      in_run-IsSound s.phase s (receive s db s.writer.rows) i
        (λ p. receive-IsSound s db s.writer.rows refl p i)
  step-IsSound s (ticks db) i =
      in_run-IsSound s.phase s (after_flush s running (flush db s.writer)) i (λ p.
        after_flush-IsSound s running s.writer (flush db s.writer) i.conserved tt
          (flush-Keeps db s.writer i.consistent))
  step-IsSound s (shuts canceled) i = in_run-IsSound s.phase s _ i (λ p.
      IsSound-if (s.writer.stopped || canceled)
        (record {
          consistent = stop-IsConsistent s.writer i.consistent;
          conserved = i.conserved;
          alive = tt;
          done = λ no. absurd no;
        })
        i)
  step-IsSound s (drains db) i =
      in_drain-IsSound s.phase s (drain s db s.writer.rows) i
        (λ p. drain-IsSound s db s.writer.rows refl p i)
