-- ===== src/Config/Bytes.antt =====
-- Go's strings byte by byte, for the texts that the configuration takes apart: strings.Fields, Cut and
-- ToLower, and strconv.Atoi, all on ASCII.
use Prim.Native.Char.{code}
use funding_carry.Prelude.{
  ℕ, ◌+◌, ◌-◌, ◌*◌, ◌^◌, List, [], ◌∷◌, ◌++◌, map, Option, none, some, String, Bool, ◌&&◌, ◌||◌,
  ltb, leb, ◌==◌, if◌then◌else◌,
}
use funding_carry.Prelude.Int.{ℤ, pos, negsuc}

abbrev pub Bytes : Type 0
Bytes = List ℕ

abbrev pub codes : String → Bytes
codes String.[] = []
codes (String.◌∷◌ c s) = code c ∷ codes s

abbrev pub is_digit : ℕ → Bool
is_digit c = leb b'0' c && leb c b'9'

-- Tab to carriage return, and the space.
abbrev pub is_space : ℕ → Bool
is_space c = (leb 9 c && leb c 13) || (c == 32)

abbrev pub lower : ℕ → ℕ
lower c = if leb b'A' c && leb c b'Z' then c + 32 else c

unfoldable pub to_lower : Bytes → Bytes
to_lower s = map lower s

abbrev pub word : Bytes → List Bytes
word [] = []
word (c ∷ s) = (c ∷ s) ∷ []

-- strings.Fields, after the part `current` of a word.
unfoldable pub fields_from : Bytes → Bytes → List Bytes
fields_from current [] = word current
fields_from current (c ∷ s) =
    let next = fields_from [] s in
    let more = fields_from (current ++ c ∷ []) s in
    if is_space c then word current ++ next else more

unfoldable pub fields : Bytes → List Bytes
fields s = fields_from [] s

-- strings.Cut: what stands before and after the first separator, if there is one.
unfoldable pub cut : ℕ → Bytes → Option (Bytes × Bytes)
cut sep [] = none
cut sep (c ∷ s) =
    if c == sep
    then some ([], s)
    else elim (cut sep s) [ none ↦ none | some p ↦ some (c ∷ p.0, p.1) ]

-- The value of decimal digits behind `n`.
unfoldable pub digits_value : ℕ → Bytes → Option ℕ
digits_value n [] = some n
digits_value n (c ∷ s) =
    let rest = digits_value (10 * n + (c - b'0')) s in if is_digit c then rest else none

unfoldable pub unsigned : Bytes → Option ℕ
unfolding digits_value
unsigned [] = none
unsigned (c ∷ s) = digits_value 0 (c ∷ s)

abbrev pub positive_int64 : Option ℕ → Option ℤ
positive_int64 none = none
positive_int64 (some n) = if ltb n (2 ^ 63) then some (pos n) else none

abbrev pub negative_int64 : Option ℕ → Option ℤ
negative_int64 none = none
negative_int64 (some n) =
    if n == 0 then some (pos 0) else if leb n (2 ^ 63) then some (negsuc (n - 1)) else none

-- strconv.Atoi, and ParseInt to the base 10 at 64 bits.
unfoldable pub atoi : Bytes → Option ℤ
atoi [] = none
atoi (c ∷ s) =
    if c == b'-'
    then negative_int64 (unsigned s)
    else if c == b'+'
    then positive_int64 (unsigned s)
    else positive_int64 (unsigned (c ∷ s))
