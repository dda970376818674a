-- ===== src/Prelude/Text.antt =====
-- Go's `==` and `<` on strings, by the native comparison of texts.
pub mod Order
use Prim.Native.Nat.{Ordering}
use mathlib.Core.Bool.{Bool, true, false}
use Prim.Native.String.{String, compare as compare_text}
pub use text.Mathlib.Text.{◌==◌ as str_eq}
pub use text.Mathlib.TextEquality.{eq_iff}
pub use text.Mathlib.TextPositions.{eq_refl}

abbrev pub str_lt : String → String → Bool
str_lt s t = elim (compare_text s t) [ Ordering.lt ↦ true | _ ↦ false ]
