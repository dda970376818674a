-- ===== src/Ingest/Book.antt =====
-- internal/ingest/book.go: the order book of the level2 channel. `Decimal.String` is the parameter
-- `key`, the canonical rendering by which the book files its levels.
pub mod Top
pub mod Best
use funding_carry.Prelude.{
  ℕ, List, [], ◌∷◌, map, take, Option, none, some, String, Bool, true, false, if◌then◌else◌, ◌||◌,
}
use funding_carry.Prelude.Text.{str_eq}
use funding_carry.Prelude.Sort.{sort}
use funding_carry.Decimal.{Decimal, is_zero, greater_than, less_than}
use funding_carry.Dict.{insert, delete, values}

abbrev pub book_depth : ℕ
book_depth = 10

pub record Level (D : Type 0) : Type 0 where
  pub px : D
  pub qty : D

pub record Book (D : Type 0) : Type 0 where
  pub bids : List (String × Level D)
  pub asks : List (String × Level D)

abbrev pub new_book : {D : Type 0} → Book D
new_book = record { bids = []; asks = [] }

-- `sideMap`'s reading of a side's name.
pub data BookSide : Type 0 where
  bid offer unrecognised : BookSide

unfoldable pub side_map : String → BookSide
side_map side =
    if str_eq side "bid"
    then bid
    else if str_eq side "offer" || str_eq side "ask"
    then offer
    else unrecognised

module _ {D : Type 0} ⦃dec : Decimal D⦄ (key : D → String) where
  unfoldable pub set_level : List (String × Level D) → D → D → List (String × Level D)
  set_level m px qty =
      if is_zero qty then delete (key px) m else insert (key px) (record { px = px; qty = qty }) m

  unfoldable pub apply_to : Book D → BookSide → D → D → Book D
  apply_to b bid px qty = record b { bids = set_level b.bids px qty }
  apply_to b offer px qty = record b { asks = set_level b.asks px qty }
  apply_to b unrecognised px qty = b

  unfoldable pub apply : Book D → String → D → D → Book D
  unfolding apply_to
  apply b side px qty = apply_to b (side_map side) px qty

module _ {D : Type 0} ⦃dec : Decimal D⦄ where
  -- What `top` sorts the levels of a side by.
  abbrev pub ahead : Bool → Level D → Level D → Bool
  ahead descending l m = if descending then greater_than l.px m.px else less_than l.px m.px

  -- `top` over one side's levels, as an iteration of the map hands them out.
  unfoldable pub best_first : Bool → List (Level D) → ℕ → List (Level D)
  best_first descending levels n = take n (sort (ahead descending) levels)

  unfoldable pub top : Book D → String → ℕ → List (Level D)
  top b side n =
      if str_eq side "bid"
      then best_first true (values b.bids) n
      else best_first false (values b.asks) n

  -- pxAndDepth.
  unfoldable pub px_and_depth : List (Level D) → List D × List D
  px_and_depth levels = (map (λ l. l.px) levels, map (λ l. l.qty) levels)

  -- The running sum of totalDepth, from the left.
  abbrev pub add_depths : D → List (Level D) → D
  add_depths sum [] = sum
  add_depths sum (l ∷ ls) = add_depths (dec.add sum l.qty) ls

  unfoldable pub total_depth : List (Level D) → D
  total_depth levels = add_depths dec.zero levels

  abbrev pub add_notionals : D → List (Level D) → D
  add_notionals sum [] = sum
  add_notionals sum (l ∷ ls) = add_notionals (dec.add sum (dec.mul l.px l.qty)) ls

  unfoldable pub imbalance : List (Level D) → List (Level D) → Option D
  imbalance bids asks =
      let ask = total_depth asks in
      let bid = total_depth bids in
      let total = dec.add bid ask in
      if is_zero total then none else some (dec.div (dec.sub bid ask) total)

  unfoldable pub impact_price : List (Level D) → Option D
  impact_price levels =
      let depth = total_depth levels in
      if is_zero depth then none else some (dec.div (add_notionals dec.zero levels) depth)

  unfoldable pub best : List (Level D) → Option D
  best [] = none
  best (l ∷ ls) = some l.px

-- The updates of one side after a reset, the newest last.
module _ {D : Type 0} ⦃dec : Decimal D⦄ (key : D → String) where
  unfoldable pub apply_all : Book D → List (String × D × D) → Book D
  apply_all b [] = b
  apply_all b ((side, px, qty) ∷ updates) = apply_all (apply key b side px qty) updates
