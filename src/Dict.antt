-- ===== src/Dict.antt =====
-- Go's maps with string keys, as association lists. The order of the entries stands for the order
-- of an iteration, which Go leaves open: what the code computes by iterating is proved not to
-- depend on it where the code relies on that.
pub mod Laws
use funding_carry.Prelude.{
  List, [], ◌∷◌, map, Option, none, some, String, Bool, true, false, if◌then◌else◌,
}
use funding_carry.Prelude.Text.{str_eq}

module _ {ℓ} {V : Type ℓ} where
  unfoldable pub lookup : String → List (String × V) → Option V
  lookup wanted [] = none
  lookup wanted ((name, held) ∷ others) =
      if str_eq name wanted then some held else lookup wanted others

  unfoldable pub insert : String → V → List (String × V) → List (String × V)
  insert name new [] = (name, new) ∷ []
  insert name new ((other, held) ∷ others) =
      if str_eq other name then (other, new) ∷ others else (other, held) ∷ insert name new others

  -- All entries of the key go; a map has one at most.
  unfoldable pub delete : String → List (String × V) → List (String × V)
  delete k [] = []
  delete k ((j, v) ∷ m) = if str_eq j k then delete k m else (j, v) ∷ delete k m

  unfoldable pub values : List (String × V) → List V
  values [] = []
  values ((j, v) ∷ m) = v ∷ values m
