-- ===== src/Ingest/VenueState/Sample.antt =====
-- internal/ingest/venuestate.go: the rows of a sample, and when there are none. `sink` is what Submit
-- answers to a row.
use funding_carry.Prelude.{
  ◌≡◌, ◌↔◌, List, [], ◌∷◌, Option, none, some, String, Bool, false, not, ◌&&◌, if◌then◌else◌, arith,
}
use funding_carry.Prelude.Text.{str_eq, eq_refl}
use funding_carry.Clock.{Time, after, truncate}
use funding_carry.Dict
use funding_carry.Decimal.{Decimal}
use funding_carry.Db.Rows.Market.{VenueStateRow}
use funding_carry.Ingest.Marks.{midpoint}
use funding_carry.Ingest.Trades.Handler.{SinkError}
use funding_carry.Ingest.VenueState.{
  VenueState, is_some, fresh_quote, in_maintenance, blank_row, with_quote, apply_part_five,
}

module _ {D : Type 0} ⦃dec : Decimal D⦄ (shut : Time → Bool) where
  abbrev pub flagged : VenueState D → String → Time → Time → VenueStateRow D → VenueStateRow D
  flagged v product ts at row =
      if str_eq product v.perp_product
      then record row { maintenance_window = in_maintenance shut v ts at }
      else row

  abbrev pub if_any : Bool → VenueStateRow D → Option (VenueStateRow D)
  if_any fresh row = if not fresh && not row.maintenance_window then none else some row

  -- rowFor.
  unfoldable pub row_for : VenueState D → String → Time → Time → Option (VenueStateRow D)
  row_for v product ts at =
      let q = fresh_quote v at (Dict.lookup product v.quotes) in
      if_any (is_some q) (
        flagged v product ts at
          (apply_part_five v product at (with_quote q (blank_row product ts))))

  -- The rows handed to the sink, in order, and its error, which ends the sample.
  unfoldable pub submit_rows :
      (VenueStateRow D → Option SinkError)
      → List (Option (VenueStateRow D))
      → List (VenueStateRow D) × Option SinkError
  submit_rows sink [] = ([], none)
  submit_rows sink (none ∷ rows) = submit_rows sink rows
  submit_rows sink (some row ∷ rows) = elim (sink row) [
    | none ↦ let rest = submit_rows sink rows in (row ∷ rest.0, rest.1)
    | some e ↦ (row ∷ [], some e)
  ]

  unfoldable pub sample :
      (VenueStateRow D → Option SinkError)
      → VenueState D
      → Time
      → VenueState D × List (VenueStateRow D) × Option SinkError
  unfolding row_for submit_rows
  sample sink v at =
      let ts = truncate at v.interval in
      let sent =
        submit_rows sink (row_for v v.perp_product ts at ∷ row_for v v.spot_product ts at ∷ []) in
      if not (after ts v.last_boundary)
      then (v, [], none)
      else (record v { last_boundary = ts }, sent.0, sent.1)

module _ {D : Type 0} ⦃dec : Decimal D⦄ (shut : Time → Bool) where
  apply_part_five-unflagged :
      (v : VenueState D) (product : String) (at : Time) (row : VenueStateRow D)
      → (apply_part_five v product at row).maintenance_window ≡ row.maintenance_window
  unfolding apply_part_five
  apply_part_five-unflagged v product at row = ground arith

  -- A sample has no row for the perp just if there is no quote of it that is fresh and none of the three
  -- signals says that the market is shut.
  pub row_for-perp :
      (v : VenueState D) (ts at : Time)
      → (row_for shut v v.perp_product ts at ≡ none) ↔ (
          (fresh_quote v at (Dict.lookup v.perp_product v.quotes) ≡ none)
          × (in_maintenance shut v ts at ≡ false))
  unfolding row_for
  row_for-perp v ts at = ground (arith, eq_refl v.perp_product)

-- SpotMid.
unfoldable pub spot_mid : {D : Type 0} ⦃dec : Decimal D⦄ → VenueState D → Time → Option D
spot_mid v at = elim (fresh_quote v at (Dict.lookup v.spot_product v.quotes)) [
  | none ↦ none
  | some q ↦ midpoint q
]
