-- ===== src/Prelude/Text/Order.antt =====
-- Go's `<` on strings is a strict order, and two texts that it leaves apart are one.
use Prim.Native.Nat.{Ordering}
use Prim.Native.String.{String, compare as compare_text, then}
use Prim.Native.String
use mathlib.Core.Path.{◌≡◌, refl}
use mathlib.Core.Logic.{inl, inr}
use mathlib.Core.Bool.{true, false}
use text.Mathlib.TextEquality.{path_by_compare}
use funding_carry.Prelude.Tests.{Bool-cases}
use funding_carry.Prelude.Text.{str_lt}
use native.Mathlib.Omega.{arith}

abbrev flip : Ordering → Ordering
flip Ordering.lt = Ordering.gt
flip Ordering.eq = Ordering.eq
flip Ordering.gt = Ordering.lt

pub compare_text-flip : (s t : String) → compare_text t s ≡ flip (compare_text s t)
compare_text-flip String.[] String.[] = refl
compare_text-flip String.[] (String.◌∷◌ d t) =
    rw (String.compare.nil-cons, String.compare.cons-nil) refl
compare_text-flip (String.◌∷◌ c s) String.[] =
    rw (String.compare.nil-cons, String.compare.cons-nil) refl
compare_text-flip (String.◌∷◌ c s) (String.◌∷◌ d t) = ground (
  arith,
  String.compare.cons-cons c d s t,
  String.compare.cons-cons d c t s,
  compare_text-flip s t,
)

pub compare_text_trans :
    (s t u : String)
    → compare_text s t ≡ Ordering.lt
    → compare_text t u ≡ Ordering.lt
    → compare_text s u ≡ Ordering.lt
compare_text_trans String.[] t String.[] h k = ground (arith, compare_text-flip t String.[])
compare_text_trans String.[] t (String.◌∷◌ e u) h k = String.compare.nil-cons e u
compare_text_trans (String.◌∷◌ c s) String.[] u h k = cc (String.compare.cons-nil c s)
compare_text_trans (String.◌∷◌ c s) (String.◌∷◌ d t) String.[] h k =
    cc (String.compare.cons-nil d t)
compare_text_trans (String.◌∷◌ c s) (String.◌∷◌ d t) (String.◌∷◌ e u) h k = ground (
  arith,
  String.compare.cons-cons c d s t,
  String.compare.cons-cons d e t u,
  String.compare.cons-cons c e s u,
  compare_text_trans s t u,
)

str_lt_text : (s t : String) → str_lt s t ≡ true → compare_text s t ≡ Ordering.lt
str_lt_text s t h = ground arith

pub str_lt_asymm : (s t : String) → str_lt s t ≡ true → str_lt t s ≡ false
str_lt_asymm s t h = ground (arith, compare_text-flip s t)

pub str_lt_trans : (s t u : String) → str_lt s t ≡ true → str_lt t u ≡ true → str_lt s u ≡ true
str_lt_trans s t u h k = ground (arith, compare_text_trans s t u)

pub eq_of_not_lt : (s t : String) → str_lt s t ≡ false → str_lt t s ≡ false → s ≡ t
eq_of_not_lt s t h k = path_by_compare s t (ground (arith, compare_text-flip s t))

-- So a chain of refusals is a refusal.
pub str_lt_not_trans :
    (s t u : String) → str_lt s t ≡ false → str_lt t u ≡ false → str_lt s u ≡ false
str_lt_not_trans s t u h k = elim (Bool-cases (str_lt t s)) [
  | inr same ↦ rw (eq_of_not_lt s t h same) k
  | inl below ↦ elim (Bool-cases (str_lt u t)) [
    | inr same ↦ rw (← eq_of_not_lt t u k same) h
    | inl lower ↦ str_lt_asymm u s (str_lt_trans u t s lower below)
  ]
]
