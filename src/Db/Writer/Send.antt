-- ===== src/Db/Writer/Send.antt =====
-- internal/db/writer.go: send, sendOnce and which failures are retried. What the database answers to
-- each attempt is an input: pgx and PostgreSQL are not part of the repository.
use funding_carry.Prelude.{
  ℕ, zero, suc, List, [], ◌∷◌, Option, none, some, String, Bool, true, not, ◌||◌, ◌⊎◌, inl, inr,
  if◌then◌else◌,
}
use funding_carry.Prelude.Text.{str_eq}
use funding_carry.Db.Writer.State.{add_count}

-- An error of the server, by its SQLSTATE, or any other.
pub data Failure : Type 0 where
  server : String → Failure
  unanswered : Failure

-- What the i-th Exec of a batch returns, rows affected or a failure, and what Close does.
pub record Reply : Type 0 where
  pub exec : ℕ → Failure ⊎ ℕ
  pub close : Option Failure

pub data SendError : Type 0 where
  hopeless : Failure → SendError
  abandoned : ℕ → Failure → SendError
  exhausted : SendError

abbrev pub Counts : Type 0
Counts = List (String × ℕ)

unfoldable pub transient_server_error : String → Bool
transient_server_error sqlstate =
    str_eq sqlstate "40001"
    || str_eq sqlstate "40P01"
    || str_eq sqlstate "53300"
    || str_eq sqlstate "53400"
    || str_eq sqlstate "55P03"
    || str_eq sqlstate "57P03"

unfoldable pub worth_retrying : Failure → Bool
worth_retrying (server code) = transient_server_error code
worth_retrying unanswered = true

-- The results of the statements from index i on.
unfoldable pub exec_all : Reply → ℕ → List String → Counts → Failure ⊎ Counts
exec_all reply i [] applied = inr applied
exec_all reply i (table ∷ tables) applied = elim (reply.exec i) [
  | inl e ↦ inl e
  | inr n ↦ exec_all reply (suc i) tables (add_count table n applied)
]

unfoldable pub closed : Reply → Failure ⊎ Counts → Failure ⊎ Counts
closed reply (inl e) = inl e
closed reply (inr applied) = elim reply.close [ none ↦ inr applied | some e ↦ inl e ]

unfoldable pub send_once : Reply → List String → Failure ⊎ Counts
unfolding closed exec_all
send_once reply tables = closed reply (exec_all reply 0 tables [])

-- What the database answers to each attempt of a flush, and whether the flush's time is up before the
-- pause after it.
pub record Database : Type 0 where
  pub replies : ℕ → Reply
  pub expired : ℕ → Bool

-- The loop of `send`, with the attempts left.
unfoldable pub send_from : Database → List String → ℕ → ℕ → SendError ⊎ Counts
send_from db tables attempt zero = inl exhausted
send_from db tables attempt (suc left) =
    let again = send_from db tables (suc attempt) left in
    elim (send_once (db.replies attempt) tables) [
      | inr applied ↦ inr applied
      | inl e ↦ if not (worth_retrying e) then inl (hopeless e) else elim left [
        | zero ↦ inl exhausted
        | suc _ ↦ if db.expired attempt then inl (abandoned attempt e) else again
      ]
    ]
