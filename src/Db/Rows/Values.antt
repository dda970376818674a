-- ===== src/Db/Rows/Values.antt =====
-- internal/db/rows.go: rowData, and the values that a row binds.
use funding_carry.Prelude.{ℕ, List, Option, String, Bool, if◌then◌else◌}
use funding_carry.Prelude.Int.{ℤ}
use funding_carry.Prelude.Text.{str_eq}
use funding_carry.Clock.{Time, is_zero_time}

-- The part of rowData that is the same for every row of a type.
pub record Shape : Type 0 where
  pub table : String
  pub columns : List String
  pub conflict : String

-- `any`, as far as the rows use it. A pointer or a NullDecimal is an option; an int32 that the code
-- counts up to is its 32 bits.
pub data Value (D S : Type 0) : Type 0 where
  null : Value D S
  time_value : Time → Value D S
  text_value : String → Value D S
  null_text : Option String → Value D S
  text_values : List String → Value D S
  decimal_value : D → Value D S
  null_decimal : Option D → Value D S
  decimal_values : List D → Value D S
  int_value : ℤ → Value D S
  null_int : Option ℤ → Value D S
  null_count : Option ℕ → Value D S
  bool_value : Bool → Value D S
  null_bool : Option Bool → Value D S
  snapshot_value : S → Value D S

module _ {D S : Type 0} where
  unfoldable pub text : String → Value D S
  text s = if str_eq s "" then null else text_value s

  unfoldable pub stamp : Time → Value D S
  stamp t = if is_zero_time t then null else time_value t
