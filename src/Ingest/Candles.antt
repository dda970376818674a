-- ===== src/Ingest/Candles.antt =====
-- internal/ingest/candles.go: CandlesHandler, and parseUnixSeconds of wire.go. A message here is the
-- candles that encoding/json makes of it, or nothing where it fails; `sink` is what Submit answers to a
-- row and `parse` is decimal.NewFromString. `arrange` is the order of an iteration over a map.
pub mod Pending
pub mod Writing
pub mod Rising
mod Examples
use funding_carry.Prelude.{
  ℕ, ◌+◌, ◌*◌, ◌==◌, List, [], ◌∷◌, ◌++◌, Option, none, some, String, Bool, true, false, not, ◌&&◌,
  if◌then◌else◌,
}
use funding_carry.Prelude.Int.{ℤ, pos, pos_part, ◌+ℤ◌}
use funding_carry.Prelude.Sort.{sort}
use funding_carry.Clock.{Time, is_zero_time, after, before}
use funding_carry.Dict
use funding_carry.TimeMap
use funding_carry.Decimal.{Decimal}
use funding_carry.Config.Bytes.{codes, atoi}
use funding_carry.Db.Rows.Market.{BarRow}
use funding_carry.Ingest.Level2.{HandleError, require_decimal}
use funding_carry.Ingest.Trades.Handler.{SinkError, writer_gone}

-- CandleInterval, 5 minutes.
abbrev pub candle_interval : ℕ
candle_interval = 300000000000

abbrev pub candle_tf : String
candle_tf = "5m"

pub record ProductCandles (D : Type 0) : Type 0 where
  pub last_start : Time
  pub seeded : Bool
  pub newest : Time
  pub pending : List (Time × BarRow D)

pub record CandlesHandler (D : Type 0) : Type 0 where
  pub products : List String
  pub state : List (String × ProductCandles D)

pub record CandleWire : Type 0 where
  pub product_id : String
  pub start : String
  pub opening : String
  pub high : String
  pub low : String
  pub closing : String
  pub volume : String

pub record Candle (D : Type 0) : Type 0 where
  pub start : Time
  pub row : BarRow D

pub data CandlesError : Type 0 where
  undecoded : CandlesError
  bad_candle : String → String → List HandleError → CandlesError
  jumped : String → Time → Time → CandlesError
  unsubmitted : SinkError → CandlesError

-- A product after some of its candles were written, the rows that the sink took, the newest first, the
-- errors, and the sink's error that ended it, if any.
pub record Written (D : Type 0) : Type 0 where
  pub product : ProductCandles D
  pub rows : List (BarRow D)
  pub errors : List CandlesError
  pub failure : Option SinkError

-- The candles of a message by product, and what could not be read.
abbrev pub Parsed : Type 0 → Type 0
Parsed D = List (String × List (Candle D)) × List CandlesError

-- time.Unix: seconds from 1970 on the clock that starts at year 1, where times before that are its start.
abbrev pub unix : ℤ → Time
unix secs = pos_part (secs +ℤ pos 62135596800) * 1000000000

unfoldable pub parse_unix_seconds : String → Option Time × List HandleError
parse_unix_seconds s = elim (atoi (codes s)) [
  | none ↦ (none, HandleError.malformed "start" s ∷ [])
  | some secs ↦ (some (unix secs), [])
]

-- The next reading, unless this one failed.
abbrev pub and_then :
    {A B : Type 0}
    → Option A × List HandleError
    → (A → Option B × List HandleError)
    → Option B × List HandleError
and_then (none, errs) next = (none, errs)
and_then (some a, errs) next = next a

abbrev pub no_candles : {D : Type 0} → ProductCandles D
no_candles = record { last_start = 0; seeded = false; newest = 0; pending = [] }

module _ {D : Type 0} where
  unfoldable pub add_products : List String → List (String × ProductCandles D)
  add_products [] = []
  add_products (p ∷ ps) = Dict.insert p no_candles (add_products ps)

  unfoldable pub new_candles_handler : List String → CandlesHandler D
  unfolding add_products
  new_candles_handler products = record { products = products; state = add_products products }

  unfoldable pub parse_candle :
      (String → Option D) → CandleWire → Option (Candle D) × List HandleError
  unfolding parse_unix_seconds
  parse_candle parse c = and_then (parse_unix_seconds c.start) (λ start.
      and_then (require_decimal parse "open" c.opening) (λ opening.
        and_then (require_decimal parse "high" c.high) (λ high.
          and_then (require_decimal parse "low" c.low) (λ low.
            and_then (require_decimal parse "close" c.closing) (λ closing.
              and_then (require_decimal parse "volume" c.volume) (λ volume. (
                some (record {
                  start = start;
                  row = record {
                    ts = start + candle_interval;
                    product_id = c.product_id;
                    tf = candle_tf;
                    opening = opening;
                    high = high;
                    low = low;
                    closing = closing;
                    volume = volume;
                    trade_count = none;
                  };
                }),
                [],
              )))))))

  abbrev pub or_empty : Option (List (Candle D)) → List (Candle D)
  or_empty none = []
  or_empty (some cs) = cs

  abbrev pub parsed_into : Parsed D → CandleWire → Option (Candle D) × List HandleError → Parsed D
  parsed_into (by_product, errs) c (none, es) =
      (by_product, errs ++ bad_candle c.product_id c.start es ∷ [])
  parsed_into (by_product, errs) c (some candle, es) = (
    Dict.insert c.product_id (or_empty (Dict.lookup c.product_id by_product) ++ candle ∷ [])
        by_product,
    errs,
  )

  -- parse, on what it has so far.
  unfoldable pub parse_candles :
      (String → Option D) → List (String × ProductCandles D) → Parsed D → List CandleWire → Parsed D
  unfolding parse_candle
  parse_candles parse state so_far [] = so_far
  parse_candles parse state so_far (c ∷ cs) = elim (Dict.lookup c.product_id state) [
    | none ↦ parse_candles parse state so_far cs
    | some p ↦ parse_candles parse state (parsed_into so_far c (parse_candle parse c)) cs
  ]

  -- record, whose loop body this is: a candle that is written already is left out.
  unfoldable pub record_candle : ProductCandles D → Candle D → ProductCandles D
  record_candle p c =
      if not (is_zero_time p.last_start) && not (after c.start p.last_start) then p else record p {
        pending = TimeMap.insert c.start c.row p.pending;
        newest = if after c.start p.newest then c.start else p.newest;
      }

  unfoldable pub record_candles : ProductCandles D → List (Candle D) → ProductCandles D
  record_candles p [] = p
  record_candles p (c ∷ cs) = record_candles (record_candle p c) cs

  unfoldable pub starts_before : Time → List (Time × BarRow D) → List Time
  starts_before newest [] = []
  starts_before newest ((start, row) ∷ pending) =
      let others = starts_before newest pending in
      if before start newest then start ∷ others else others

  unfoldable pub closed : ProductCandles D → List Time
  unfolding starts_before
  closed p = sort before (starts_before p.newest p.pending)

  abbrev pub jump : String → ProductCandles D → Time → List CandlesError
  jump name p start =
      if p.seeded
        && not (is_zero_time p.last_start)
        && not (start == p.last_start + candle_interval)
      then jumped name p.last_start start ∷ []
      else []

  unfoldable pub mark_written : ProductCandles D → Time → ProductCandles D
  mark_written p start = record p { pending = TimeMap.delete start p.pending; last_start = start }

module _ {D : Type 0} ⦃dec : Decimal D⦄ where
  -- What a map of rows holds under a key that it does not have.
  abbrev pub bar_or_zero : Option (BarRow D) → BarRow D
  bar_or_zero (some row) = row
  bar_or_zero none = record {
    ts = 0;
    product_id = "";
    tf = "";
    opening = dec.zero;
    high = dec.zero;
    low = dec.zero;
    closing = dec.zero;
    volume = dec.zero;
    trade_count = none;
  }

  -- The loop of writeClosed.
  unfoldable pub write_starts :
      (BarRow D → Option SinkError)
      → String
      → ProductCandles D
      → List (BarRow D)
      → List CandlesError
      → List Time
      → Written D
  write_starts sink name p rows errs [] = record {
    product = record p { seeded = true };
    rows = rows;
    errors = errs;
    failure = none;
  }
  write_starts sink name p rows errs (start ∷ starts) =
      let row = bar_or_zero (TimeMap.lookup start p.pending) in
      let found = errs ++ jump name p start in
      let more = write_starts sink name (mark_written p start) (row ∷ rows) found starts in
      elim (sink row) [
        | none ↦ more
        | some e ↦ record {
          product = p;
          rows = rows;
          errors = found ++ unsubmitted e ∷ [];
          failure = some e;
        }
      ]

  -- persist and writeClosed, on the rows taken before.
  unfoldable pub persist :
      (BarRow D → Option SinkError)
      → String
      → ProductCandles D
      → List (Candle D)
      → List (BarRow D)
      → Written D
  unfolding record_candles write_starts
  persist sink name p candles rows =
      let p' = record_candles p candles in write_starts sink name p' rows [] (closed p')

  -- Handle over the products of a message; a writer that is gone ends it. The message
  -- has only products of the state.
  unfoldable pub persist_products :
      (BarRow D → Option SinkError)
      → List (String × ProductCandles D)
      → List (BarRow D)
      → List CandlesError
      → List (String × List (Candle D))
      → List (String × ProductCandles D) × List (BarRow D) × List CandlesError
  unfolding persist
  persist_products sink state rows errs [] = (state, rows, errs)
  persist_products sink state rows errs ((name, candles) ∷ others) = elim (Dict.lookup name state) [
    | none ↦ persist_products sink state rows errs others
    | some p ↦
        let w = persist sink name p candles rows in
        let state' = Dict.insert name w.product state in
        let more = persist_products sink state' w.rows (errs ++ w.errors) others in
        elim w.failure [
          | none ↦ more
          | some writer_gone ↦ (state', w.rows, w.errors)
          | some _ ↦ more
        ]
  ]

  unfoldable pub handle :
      (String → Option D)
      → (BarRow D → Option SinkError)
      → (List (String × List (Candle D)) → List (String × List (Candle D)))
      → CandlesHandler D
      → List (BarRow D)
      → Option (List CandleWire)
      → CandlesHandler D × List (BarRow D) × List CandlesError
  unfolding parse_candles persist_products
  handle parse sink arrange h rows none = (h, rows, undecoded ∷ [])
  handle parse sink arrange h rows (some candles) =
      let parsed = parse_candles parse h.state ([], []) candles in
      let done = persist_products sink h.state rows parsed.1 (arrange parsed.0) in
      (record h { state = done.0 }, done.1, done.2)
