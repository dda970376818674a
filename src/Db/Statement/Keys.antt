-- ===== src/Db/Statement/Keys.antt =====
-- internal/db: the writer's key of a row and the statement that it stands for.
use funding_carry.Prelude.{
  ℕ, zero, suc, ◌<◌, Bool, true, false, ◌≡◌, refl, sym, ◌∙◌, arith, ◌==◌, List, [], ◌∷◌, String,
  if◌then◌else◌,
}
use funding_carry.Prelude.Text.{str_eq}
use funding_carry.Db.Rows.{Row, kind, shape, shapes}
use funding_carry.Db.Rows.Values.{Shape}
use funding_carry.Db.Statement.{insert_statement, batch_key}

nth : List Shape → ℕ → Shape → Shape
nth [] i d = d
nth (s ∷ ss) zero d = s
nth (s ∷ ss) (suc i) d = nth ss i d

module _ {D S : Type 0} where
  shape-nth : (d : Shape) (r : Row D S) → shape r ≡ nth shapes (kind r) d
  unfolding shape kind nth
  shape-nth d (Row.venue_state r) = refl
  shape-nth d r = refl

-- A test of the kinds that are less than a bound passes on each of them.
kinds_pass : (ℕ → Bool) → ℕ → Bool
kinds_pass test zero = true
kinds_pass test (suc top) = if test top then kinds_pass test top else false

kinds_pass-each :
    (test : ℕ → Bool) (bound k : ℕ) → k < bound → kinds_pass test bound ≡ true → test k ≡ true
unfolding kinds_pass
kinds_pass-each test zero k below passed = absurd (omega arith)
kinds_pass-each test (suc top) k below passed = ground (arith, kinds_pass-each test top k)

same : Bool → Bool → Bool
same true b = b
same false true = false
same false false = true

-- No row has this shape.
abbrev blank : Shape
blank = record { table = ""; columns = []; conflict = "" }

-- Whether a text of the shapes tells the two of these numbers apart.
apart : (Shape → String) → ℕ → ℕ → Bool
apart text_of m n =
    same (str_eq (text_of (nth shapes m blank)) (text_of (nth shapes n blank))) (m == n)

keys_apart : kinds_pass (λ m. kinds_pass (apart batch_key m) 14) 14 ≡ true
unfolding kinds_pass apart same nth batch_key
keys_apart = refl

statements_apart : kinds_pass (λ m. kinds_pass (apart insert_statement m) 14) 14 ≡ true
unfolding kinds_pass apart same nth insert_statement
statements_apart = refl

same_sound : (a b : Bool) → same a b ≡ true → a ≡ b
unfolding same
same_sound true true h = refl
same_sound true false h = cc
same_sound false true h = cc
same_sound false false h = refl

module _ {D S : Type 0} where
  kind-lt : (r : Row D S) → kind r < 14
  unfolding kind
  kind-lt (Row.venue_state r) = omega arith
  kind-lt r = omega arith

  -- A text that tells the types of rows apart is the same for two rows just if their types are.
  tells_apart :
      (text_of : Shape → String)
      → kinds_pass (λ m. kinds_pass (apart text_of m) 14) 14 ≡ true
      → (r q : Row D S) → str_eq (text_of (shape r)) (text_of (shape q)) ≡ (kind r == kind q)
  unfolding apart
  tells_apart text_of h r q = rw (shape-nth blank r) (
      rw (shape-nth blank q) (
        same_sound _ _ (
          kinds_pass-each (apart text_of (kind r)) 14 (kind q) (kind-lt q)
            (kinds_pass-each (λ m. kinds_pass (apart text_of m) 14) 14 (kind r) (kind-lt r) h))))

  -- Two rows are filed under one key just if one statement inserts them.
  pub batch_key-insert_statement :
      (r q : Row D S)
      → str_eq (batch_key (shape r)) (batch_key (shape q))
        ≡ str_eq (insert_statement (shape r)) (insert_statement (shape q))
  batch_key-insert_statement r q =
      tells_apart batch_key keys_apart r q ∙ sym (tells_apart insert_statement statements_apart r q)
