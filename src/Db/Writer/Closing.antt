-- ===== src/Db/Writer/Closing.antt =====
-- internal/db/writer.go: what Submit does once the writer has stopped.
use funding_carry.Prelude.{
  List, [], ◌∷◌, ◌++◌, ◌≡◌, refl, Option, none, true, false, arith, if◌then◌else◌, ℕ, suc, subst,
  sym,
}
use funding_carry.Prelude.Int.{ℤ, pos, ltb_ℤ}
use funding_carry.Db.Rows.{Row}
use funding_carry.Db.Writer.State.{WriterOptions, with_defaults, new_writer, or_default}
use funding_carry.Db.Writer.Send.{Database, SendError}
use funding_carry.Db.Writer.Flush.{flush}
use funding_carry.Db.Writer.Schedule.{
  System, Step, Phase, ended, submits, enters, gives_up, cancels, closes, receives, ticks, shuts,
  drains, pick, new_system, submit, enter, refuse, after_flush, drain, step, run, running, draining,
  crashed, in_run, in_drain,
}

or_default_positive : (n : ℤ) (m : ℕ) → ltb_ℤ (pos 0) (or_default n (pos (suc m))) ≡ true
or_default_positive n m = ground arith

module _ {D S : Type 0} where
  -- Run has returned, and no Submit is between its two selects.
  record IsOver (s t : System D S) (e : Option SendError) : Type 0 where
    phase : t.phase ≡ ended e
    stopped : t.writer.stopped ≡ true
    submitting : t.submitting ≡ []
    accepted : t.accepted ≡ s.accepted
    landed : t.landed ≡ s.landed
    rows : t.writer.rows ≡ s.writer.rows

  pick-nothing : (n : ℕ) (rs : List (Row D S)) → rs ≡ [] → pick n rs ≡ none
  unfolding pick
  pick-nothing n [] e = refl
  pick-nothing n (r ∷ rs) e = cc

  submit-IsOver :
      (s t : System D S) (e : Option SendError) (r : Row D S)
      → IsOver s t e
      → IsOver s (submit t r) e
  unfolding submit
  submit-IsOver s t e r o =
      subst
        (λ b.
          IsOver s
            (if b
              then record t { refused = t.refused ++ r ∷ [] }
              else record t { submitting = t.submitting ++ r ∷ [] })
            e)
        (sym o.stopped)
        (record {
          phase = o.phase;
          stopped = o.stopped;
          submitting = o.submitting;
          accepted = o.accepted;
          landed = o.landed;
          rows = o.rows;
        })

  in_run-IsOver :
      (s t u : System D S) (e : Option SendError) (p : Phase)
      → p ≡ ended e
      → IsOver s t e
      → IsOver s (in_run p t u) e
  in_run-IsOver s t u e running h o = ground arith
  in_run-IsOver s t u e draining h o = o
  in_run-IsOver s t u e (ended _) h o = o
  in_run-IsOver s t u e crashed h o = o

  in_drain-IsOver :
      (s t u : System D S) (e : Option SendError) (p : Phase)
      → p ≡ ended e
      → IsOver s t e
      → IsOver s (in_drain p t u) e
  in_drain-IsOver s t u e running h o = o
  in_drain-IsOver s t u e draining h o = ground arith
  in_drain-IsOver s t u e (ended _) h o = o
  in_drain-IsOver s t u e crashed h o = o

  step-IsOver :
      (s t : System D S) (e : Option SendError) (st : Step D S)
      → IsOver s t e
      → IsOver s (step t st) e
  unfolding step enter refuse
  step-IsOver s t e (submits r) o = submit-IsOver s t e r o
  step-IsOver s t e (enters n) o =
      subst (λ p. IsOver s (enter t p) e) (sym (pick-nothing n t.submitting o.submitting)) o
  step-IsOver s t e (gives_up n) o =
      subst (λ p. IsOver s (refuse t t.writer.stopped p) e)
        (sym (pick-nothing n t.submitting o.submitting)) o
  step-IsOver s t e (cancels n) o =
      subst (λ p. IsOver s (refuse t true p) e) (sym (pick-nothing n t.submitting o.submitting)) o
  step-IsOver s t e closes o = record {
    phase = o.phase;
    stopped = refl;
    submitting = o.submitting;
    accepted = o.accepted;
    landed = o.landed;
    rows = o.rows;
  }
  step-IsOver s t e (receives db) o = in_run-IsOver s t _ e t.phase o.phase o
  step-IsOver s t e (ticks db) o = in_run-IsOver s t _ e t.phase o.phase o
  step-IsOver s t e (shuts canceled) o = in_run-IsOver s t _ e t.phase o.phase o
  step-IsOver s t e (drains db) o = in_drain-IsOver s t _ e t.phase o.phase o

  run-IsOver :
      (s t : System D S) (e : Option SendError) (es : List (Step D S))
      → IsOver s t e
      → IsOver s (run t es) e
  unfolding run
  run-IsOver s t e [] o = o
  run-IsOver s t e (x ∷ es) o = run-IsOver s (step t x) e es (step-IsOver s t e x o)

  -- Once Run has returned with `stop` closed and no Submit between its two selects, no row is accepted
  -- any more, and none lands or joins the queue, whatever is done.
  pub run-over :
      (s : System D S) (e : Option SendError) (es : List (Step D S))
      → s.phase ≡ ended e
      → s.writer.stopped ≡ true
      → s.submitting ≡ []
      → ((run s es).accepted ≡ s.accepted)
        × ((run s es).landed ≡ s.landed)
        × ((run s es).writer.rows ≡ s.writer.rows)
  run-over s e es p t u =
      let o = run-IsOver s s e es (record {
        phase = p;
        stopped = t;
        submitting = u;
        accepted = refl;
        landed = refl;
        rows = refl;
      }) in
      (o.accepted, o.landed, o.rows)

  -- A Submit that has passed its check of `stop` when Close comes may be answered after the final flush:
  -- its row is accepted, Run has returned without an error, and nothing has landed.
  pub run-lost :
      (opts : WriterOptions) (r : Row D S) (db : Database)
      → let s =
          run (new_system opts) (submits r ∷ closes ∷ shuts false ∷ drains db ∷ enters 0 ∷ []) in
        (s.phase ≡ ended none) × (s.accepted ≡ r ∷ []) × (s.landed ≡ []) × (s.refused ≡ [])
  unfolding run step submit enter pick drain after_flush flush new_system new_writer with_defaults
  run-lost opts r db = rw (or_default_positive opts.queue_size 4095) (refl, refl, refl, refl)
