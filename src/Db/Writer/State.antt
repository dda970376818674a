-- ===== src/Db/Writer/State.antt =====
-- internal/db/writer.go and metrics.go: the writer's options, batches and metrics, and `enqueue`.
use funding_carry.Prelude.{
  ℕ, suc, ◌+◌, List, [], ◌∷◌, ◌++◌, Option, none, some, String, Bool, false, if◌then◌else◌,
}
use funding_carry.Prelude.Int.{ℤ, pos, ltb_ℤ}
use funding_carry.Clock.{Duration}
use funding_carry.Dict.{lookup, insert}
use funding_carry.Db.Rows.{Row, shape, row_values}
use funding_carry.Db.Rows.Values.{Value}
use funding_carry.Db.Statement.{insert_statement, batch_key}

pub record WriterOptions : Type 0 where
  pub queue_size : ℤ
  pub batch_size : ℤ
  pub flush_interval : Duration
  pub flush_timeout : Duration
  pub max_attempts : ℤ
  pub retry_backoff : Duration

abbrev pub or_default : ℤ → ℤ → ℤ
or_default n default = if ltb_ℤ (pos 0) n then n else default

unfoldable pub with_defaults : WriterOptions → WriterOptions
with_defaults o = record {
  queue_size = or_default o.queue_size (pos 4096);
  batch_size = or_default o.batch_size (pos 500);
  flush_interval = or_default o.flush_interval (pos 1000000000);
  flush_timeout = or_default o.flush_timeout (pos 10000000000);
  max_attempts = or_default o.max_attempts (pos 3);
  retry_backoff = or_default o.retry_backoff (pos 250000000);
}

-- tableBatch.
pub record TableBatch (D S : Type 0) : Type 0 where
  pub table : String
  pub stmt : String
  pub values : List (List (Value D S))

-- WriterMetrics: the gauge, the number of observed batches and the two counters by table.
pub record WriterMetrics : Type 0 where
  pub queue_depth : ℕ
  pub batch_count : ℕ
  pub rows_written : List (String × ℕ)
  pub rows_conflicted : List (String × ℕ)

-- `rows` is what the channel buffers, the oldest first; `stopped` is whether `stop` is closed.
pub record Writer (D S : Type 0) : Type 0 where
  pub opts : WriterOptions
  pub metrics : WriterMetrics
  pub rows : List (Row D S)
  pub stopped : Bool
  pub batches : List (String × TableBatch D S)
  pub order : List String
  pub pending : ℕ

unfoldable pub add_count : String → ℕ → List (String × ℕ) → List (String × ℕ)
add_count table n counts = elim (lookup table counts) [
  | none ↦ insert table n counts
  | some m ↦ insert table (m + n) counts
]

module _ {D S : Type 0} where
  unfoldable pub new_writer : WriterOptions → Writer D S
  new_writer opts = record {
    opts = with_defaults opts;
    metrics = record { queue_depth = 0; batch_count = 0; rows_written = []; rows_conflicted = [] };
    rows = [];
    stopped = false;
    batches = [];
    order = [];
    pending = 0;
  }

  unfoldable pub add_values : TableBatch D S → List (Value D S) → TableBatch D S
  add_values b vs = record b { values = b.values ++ vs ∷ [] }

  abbrev pub new_batch : Row D S → TableBatch D S
  new_batch r = record { table = (shape r).table; stmt = insert_statement (shape r); values = [] }

  -- A row filed under its key, where this batch, if any, is.
  unfoldable pub file_under : Writer D S → Row D S → Option (TableBatch D S) → Writer D S
  file_under w r none = record w {
    batches = insert (batch_key (shape r)) (add_values (new_batch r) (row_values r)) w.batches;
    order = w.order ++ batch_key (shape r) ∷ [];
    pending = suc w.pending;
  }
  file_under w r (some b) = record w {
    batches = insert (batch_key (shape r)) (add_values b (row_values r)) w.batches;
    pending = suc w.pending;
  }

  unfoldable pub enqueue : Writer D S → Row D S → Writer D S
  unfolding file_under
  enqueue w r = file_under w r (lookup (batch_key (shape r)) w.batches)
