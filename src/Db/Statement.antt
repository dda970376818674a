-- ===== src/Db/Statement.antt =====
-- internal/db/writer.go: insertStatement, and the key by which `enqueue` groups rows.
pub mod Keys
use Prim.Native.String.{◌++◌}
use funding_carry.Prelude.{
  ℕ, zero, suc, ◌/◌, ◌%◌, List, [], ◌∷◌, String, if◌then◌else◌, ltb, get_elem?, none, some,
}
use funding_carry.Prelude.Text.{str_eq}
use funding_carry.Db.Rows.Values.{Shape}

-- strings.Join.
unfoldable pub join : List String → String → String
join [] sep = ""
join (s ∷ []) sep = s
join (s ∷ t ∷ ts) sep = s ++ sep ++ join (t ∷ ts) sep

-- A decimal digit.
unfoldable pub digit : ℕ → String
digit n =
    elim (get_elem? {A = String} ("0" ∷ "1" ∷ "2" ∷ "3" ∷ "4" ∷ "5" ∷ "6" ∷ "7" ∷ "8" ∷ "9" ∷ [])
      n) [ none ↦ "" | some s ↦ s ]

-- strconv.Itoa; a number has at most one digit more than its value.
unfoldable pub digits : ℕ → ℕ → String
unfolding digit
digits zero n = ""
digits (suc fuel) n =
    let high = digits fuel (n / 10) in if ltb n 10 then digit n else high ++ digit (n % 10)

unfoldable pub itoa : ℕ → String
unfolding digits
itoa n = digits (suc n) n

-- The bind parameters `$i`, for the columns from index `i`.
unfoldable pub parameters : ℕ → List String → String
unfolding itoa
parameters i [] = ""
parameters zero (c ∷ cs) = "$" ++ itoa 1 ++ parameters 1 cs
parameters (suc i) (c ∷ cs) = ", $" ++ itoa (suc (suc i)) ++ parameters (suc (suc i)) cs

unfoldable pub insert_statement : Shape → String
unfolding join parameters
insert_statement d =
    "INSERT INTO "
    ++ d.table
    ++ " ("
    ++ join d.columns ", "
    ++ ") VALUES ("
    ++ parameters 0 d.columns
    ++ ")"
    ++ (if str_eq d.conflict "" then "" else " " ++ d.conflict)

-- The key of `enqueue`.
unfoldable pub batch_key : Shape → String
unfolding join
batch_key d = d.table ++ "(" ++ join d.columns "," ++ ")"
