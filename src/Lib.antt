-- ===== src/Lib.antt =====
-- The funding-carry services, modelled: order tracking, the simulated venue, carry's read model,
-- market-data ingestion, the database writer and the configuration. Paths are from the repository's root.
--
-- The parts and how they interact:
-- - The router submits orders to a venue and tracks them (internal/exec): `Track` on a submission,
--   `Apply` on each execution report, `Observe` on a clock tick. Reports may come before `Track`, twice,
--   or out of order.
-- - The simulated venue (internal/fix) takes orders over FIX, prices them against the latest recorded
--   book and answers with execution reports. Its engine is one goroutine, which owns its state.
-- - Ingestion (internal/ingest) keeps an order book from the level2 channel and writes snapshots of it,
--   files trades in buckets and reduces each to a row, writes candles once they are over, makes marks and
--   an hourly funding rate of trades and quotes, and samples all of it in rows of the venue state. A
--   backfill finds what is missing of the history. Its streams reconnect on a schedule.
-- - The writer (internal/db) is the one goroutine that rows reach the database through: producers submit
--   them to a queue, it files them by statement and sends the batches by size and by interval.
-- - The read model (internal/venue) holds the newest row of each source, and the flags that gate orders.
-- - Each binary loads its configuration (internal/config) from the environment once, and refuses values
--   that break its rails.
--
-- The files:
-- - Prelude: library names, tests, lists, integers, texts and Go's sort.Slice. Sorting is an insertion
--   sort; Prelude/Sort shows that the algorithm is of no account where elements are decided.
-- - Decimal: github.com/shopspring/decimal as an interface, for it is not part of the repository. Its
--   documented laws are records of hypotheses (OrderLaws, and IntegerLaws and PriceLaws in
--   Decimal/Laws); Decimal/Whole is the whole numbers, with the laws proved.
-- - Clock: time.Time as nanoseconds since the zero time, time.Duration as a signed count of them, with the
--   saturation of Sub and the rounding of Truncate. Overflow of Add is not modelled, and a time before the
--   zero time is the zero time.
-- - Dict and TimeMap: Go maps with text keys and with times as keys, as association lists.
-- - Carry: internal/carry/venue.go, the vocabulary of venues.
-- - Config: internal/config. Bytes is what strings and strconv do to the texts, Window is maintenance.go,
--   Loader is env.go, Records the types of config.go and log.go, Sections and Load the loads of the
--   binaries with `validate`. Errors are accumulated as the loader does; Rails says when a load succeeds.
-- - Db: internal/db. Rows is rows.go, a record for each row with its table, columns, values and conflict
--   clause; Statement is insertStatement and the key of a batch. Writer is writer.go: State its types and
--   enqueue, Send the attempts of one batch, Flush the batches of all statements, and Schedule the steps of
--   Submit, Run, shutdown and Close, which interleave at will. Submit is two steps, one for each of its
--   selects. What the database answers is an input of each flush.
-- - Exec: internal/exec. Status is the order's status; Transition is `transition` with closedOut,
--   acknowledged, fill, progressed and ended; Orders is `tracked` with complete, adopt, apply and
--   observeTimings; Tracker is Track, Apply and Observe, with Query for Status, Open and Overdue; Metrics
--   is metrics.go. `Tracker.History.run` is any sequence of operations: the mutex makes each one step.
-- - Fix: internal/fix. Terms has the values of message.go, Fill is fill.go, and Engine is engine.go:
--   State its types, Handlers accept, evaluate, printSlice, finish, cancelRequested and publish, Loop
--   tick, readBook and run, over a list of what run selects. The writer, the session and the seeded
--   source are functions in `Env`; the clock and the book source are inputs of each event. Moves says
--   what the run keeps, from what filing and ending an order keep; Ledger, Finality and Identity are
--   theorems on runs, by that or by Loop/Induction, and Progress is about one evaluation.
-- - Venue: internal/venue/state.go, New, Refresh and the flags, with run.go in Loop. The rows are types
--   with a timestamp.
-- - Ingest: internal/ingest. Backoff is backoff.go, on int64 arithmetic with its wrap-around; Book is
--   book.go; Level2 is level2.go with the decimals of wire.go. Trades is trades.go: aggregate and
--   countSweeps in Trades itself, Handle and Reset in Handler, Tick in Tick, and `History.run` any
--   sequence of messages, reconnects and ticks; `Induction.run-keeps` gives what each part keeps of a
--   product over it. Candles is candles.go, Marks is marks.go, Funding is funding.go with
--   fundingrunner.go in Runner, VenueState is venuestate.go with `sample` and `rowFor` in Sample, and
--   ticker.go and status.go in its Feeds, and Backfill is missingRanges, MarkSamplesFromCandles and
--   hoursToCompute of backfill.go, with bars, the loops of gather over one page, and funding in Fetch.
-- - The modules named Examples: the theorems at concrete inputs.
--
-- Bounds and fuel: Tick of the trades handler closes buckets from the oldest that is not written to the
-- clock, with as much fuel as there are nanoseconds between them and one more; a round goes on by the
-- positive interval. missingRanges and the paging of bars have fuel in the same way. The numerals of insertStatement have as many
-- rounds as the number and one more, and the attempts of a batch as many as the options allow. The
-- catch-up of the funding runner has its rounds counted beforehand. All other loops are over a list.
-- Counters and sequence numbers are natural numbers, except for the int32 counters of Ingest/Trades, which
-- wrap. An int64 is written with its wrap-around where the code can leave its range (Ingest/Backoff, and
-- the seconds of Config/Loader), and IntPart of a decimal is assumed right only within it. An int of
-- Config is read within an int64.
--
-- Not modelled: logging, gauges and counters other than those of internal/exec/metrics.go and of the
-- writer, sockets, HTTP, SQL and FIX encodings, which are I/O or libraries; JSON decoding, whose outcome is
-- an input; the streams and the pollers of ingestion, the composition of a backfill's run and the FIX initiator.
pub mod Prelude
pub mod Decimal
pub mod Clock
pub mod Dict
pub mod TimeMap
pub mod Carry
pub mod Config
pub mod Db
pub mod Exec
pub mod Fix
pub mod Venue
pub mod Ingest
