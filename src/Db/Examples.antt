-- ===== src/Db/Examples.antt =====
-- The theorems of the writer at concrete inputs.
use funding_carry.Prelude.{
  List, [], ◌∷◌, ◌++◌, ◌≡◌, ◌≢◌, refl, some, none, String, false, inr, zero, suc, length, true,
}
use funding_carry.Prelude.Int.{ℤ, pos}
use funding_carry.Dict.{lookup, insert}
use funding_carry.Db.Rows.{Row, shape, row_values}
use funding_carry.Db.Writer.State.{
  WriterOptions, new_writer, with_defaults, enqueue, file_under, add_count, add_values,
}
use funding_carry.Db.Writer.Send.{Database, unanswered, send_from, send_once, worth_retrying}
use funding_carry.Db.Writer.Filing.{rows_for, statements_for}
use funding_carry.Db.Writer.Schedule.{
  System, Step, crashed, ended, submits, enters, closes, receives, shuts, drains, new_system, run,
  step, submit, enter, pick, receive, drain, after_flush,
}
use funding_carry.Db.Writer.Conservation.{IsConserved}
use funding_carry.Db.Writer.Delivery.{run-IsConserved, run-landed}
use funding_carry.Db.Writer.Closing.{run-lost}
use funding_carry.Db.Writer.Flush.{flush, settle, queue_all, count_queued, observe_rows, empty_all}
use funding_carry.Db.Statement.{batch_key, insert_statement}
use funding_carry.Db.Rows.Trading.{risk_event_values, risk_event_shape}

abbrev unset : WriterOptions
unset = record {
  queue_size = pos 0;
  batch_size = pos 2;
  flush_interval = pos 0;
  flush_timeout = pos 0;
  max_attempts = pos 0;
  retry_backoff = pos 0;
}

-- One attempt that gets no answer, then each statement takes one row.
abbrev flaky : Database
flaky = record {
  replies = λ n. record {
    exec = λ i. inr 1;
    close = elim n [
      | zero ↦ some unanswered
      | suc k ↦ elim k [ zero ↦ some unanswered | suc _ ↦ none ]
    ];
  };
  expired = λ n. false;
}

abbrev event : String → Row ℤ String
event k =
    Row.risk_event
      (record { ts = 1000; kind = k; detail = "{}"; action_taken = ""; resolved_at = 0 })

abbrev session : List (Step ℤ String)
session =
    submits (event "a")
    ∷ submits (event "b")
    ∷ enters 0
    ∷ receives flaky
    ∷ enters 0
    ∷ closes
    ∷ shuts false
    ∷ drains flaky
    ∷ drains flaky
    ∷ []

abbrev over : System ℤ String
over = run (new_system unset) session

-- Run returns without an error, and both rows land in the final flush, at the second attempt.
over_facts :
    (over.phase ≡ ended none)
    × (over.writer.stopped ≡ true)
    × (over.submitting ≡ [])
    × (length over.landed ≡ 2)
unfolding run step submit enter pick receive drain after_flush flush settle queue_all count_queued
    observe_rows empty_all enqueue file_under send_from send_once worth_retrying add_count
    new_system new_writer with_defaults batch_key insert_statement risk_event_values lookup insert
    shape row_values add_values
over_facts = (refl, refl, refl, refl)

run-IsConserved_example : (over.phase ≢ crashed) × IsConserved over.writer over.accepted over.landed
run-IsConserved_example = run-IsConserved unset session

run-landed_example :
    rows_for (insert_statement risk_event_shape) over.accepted
    ≡ statements_for (insert_statement risk_event_shape) over.landed
      ++ rows_for (insert_statement risk_event_shape) over.writer.rows
run-landed_example = run-landed unset session (insert_statement risk_event_shape) over_facts.0

run-lost_example :
    let s =
      run
        (new_system unset)
        (submits (event "a") ∷ closes ∷ shuts false ∷ drains flaky ∷ enters 0 ∷ []) in
    (s.phase ≡ ended none) × (s.accepted ≡ event "a" ∷ []) × (s.landed ≡ []) × (s.refused ≡ [])
run-lost_example = run-lost unset (event "a") flaky
