-- ===== src/TimeMap.antt =====
-- Go's maps with time.Time keys, as association lists. The services key them by UTC instants without a
-- monotonic reading, which are equal just if they are the same instant.
pub mod Laws
use funding_carry.Prelude.{ℕ, List, [], ◌∷◌, Option, none, some, ◌==◌, if◌then◌else◌}
use funding_carry.Clock.{Time}

module _ {ℓ} {V : Type ℓ} where
  unfoldable pub lookup : Time → List (Time × V) → Option V
  lookup wanted [] = none
  lookup wanted ((at, held) ∷ others) = if at == wanted then some held else lookup wanted others

  unfoldable pub insert : Time → V → List (Time × V) → List (Time × V)
  insert at new [] = (at, new) ∷ []
  insert at new ((other, held) ∷ others) =
      if other == at then (other, new) ∷ others else (other, held) ∷ insert at new others

  -- All entries of the key go; a map has one at most.
  unfoldable pub delete : Time → List (Time × V) → List (Time × V)
  delete at [] = []
  delete at ((other, held) ∷ others) =
      if other == at then delete at others else (other, held) ∷ delete at others
