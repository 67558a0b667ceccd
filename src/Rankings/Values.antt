-- ===== src/Rankings/Values.antt =====
-- alternative_ranking.py: the values of a horse that the rules read. Finite floats are integers of
-- units, as in Prelude/Value.
use kra_analysis.Prelude.{
  zero, suc, String, Option, none, some, Bool, true, false, not, if◌then◌else◌, str_eq,
}
use Prim.Native.Nat.{◌/◌}
use kra_analysis.Prelude.Result.{Result, ok, err, ◌>>=◌}
use kra_analysis.Prelude.Value.{
  Value, Fields, null, obj, arr, str, float, int, bool, nil, cons, end, field, ℤ, pos, negsuc,
  Float, finite, infinite, nan,
}
use kra_analysis.Prelude.Integers.{ltz, negate, ◌+ℤ◌}
use kra_analysis.Prelude.Objects.{get_field}
use kra_analysis.Predictions.Conversions.{Platform, one_unit}

-- The exceptions that are not caught: of `float(integer)`, `int(inf)` and a division whose result is
-- too large; and of `.get` on what is no dict.
pub data RankingError : Type 0 where
  overflow_error attribute_error : RankingError

-- The conversions of Predictions/Conversions, `int(text)` and the true division of integers.
pub record Arithmetic : Type 0 where
  pub platform : Platform
  pub int_of_text : String → Option ℤ
  pub divide : ℤ → ℤ → Option ℤ

abbrev pub Reads : Type 0 → Type 0
Reads A = Result RankingError A

abbrev or_overflow : Option ℤ → Reads (Option ℤ)
or_overflow none = err overflow_error
or_overflow (some z) = ok (some z)

abbrev finite_part : Float → Option ℤ
finite_part (finite z) = some z
finite_part (infinite s) = none
finite_part nan = none

abbrev parsed : Option Float → Option ℤ
parsed none = none
parsed (some x) = finite_part x

unfoldable pub safe_float : Arithmetic → Value → Reads (Option ℤ)
unfolding one_unit
safe_float a (bool true) = ok (some (pos one_unit))
safe_float a (bool false) = ok (some (pos 0))
safe_float a (int z) = or_overflow (a.platform.float_of_int z)
safe_float a (float x) = ok (finite_part x)
safe_float a (str s) = ok (parsed (a.platform.float_of_text s))
safe_float a null = ok none
safe_float a (obj f) = ok none
safe_float a (arr xs) = ok none

-- int(x) of a finite float cuts off the fraction.
truncated : ℤ → ℤ
unfolding one_unit
truncated (pos n) = pos (n / one_unit)
truncated (negsuc n) = negate (pos (suc n / one_unit))

unfoldable pub safe_int : Arithmetic → Value → Reads (Option ℤ)
unfolding truncated
safe_int a (bool true) = ok (some (pos 1))
safe_int a (bool false) = ok (some (pos 0))
safe_int a (int z) = ok (some z)
safe_int a (float (finite z)) = ok (some (truncated z))
safe_int a (float (infinite s)) = err overflow_error
safe_int a (float nan) = ok none
safe_int a (str s) = ok (a.int_of_text s)
safe_int a null = ok none
safe_int a (obj f) = ok none
safe_int a (arr xs) = ok none

-- bool(value)
abbrev pub is_truthy : Value → Bool
is_truthy null = false
is_truthy (bool b) = b
is_truthy (int (pos zero)) = false
is_truthy (int (pos (suc n))) = true
is_truthy (int (negsuc n)) = true
is_truthy (float (finite (pos zero))) = false
is_truthy (float (finite (pos (suc n)))) = true
is_truthy (float (finite (negsuc n))) = true
is_truthy (float (infinite s)) = true
is_truthy (float nan) = true
is_truthy (str s) = not (str_eq s "")
is_truthy (arr nil) = false
is_truthy (arr (cons v xs)) = true
is_truthy (obj end) = false
is_truthy (obj (field k v f)) = true

-- The fields that `.get` reads.
abbrev fields_of : Value → Reads Fields
fields_of (obj f) = ok f
fields_of _ = err attribute_error

-- value or {}
unfoldable pub or_empty : Value → Reads Fields
or_empty v = if is_truthy v then fields_of v else ok end

-- str(value or "")
unfoldable pub text_or_empty : Arithmetic → Value → String
text_or_empty a (str s) = s
text_or_empty a v = if is_truthy v then a.platform.text_of v else ""

-- _safe_int(value) or 0
abbrev or_zero : Option ℤ → ℤ
or_zero none = pos 0
or_zero (some z) = z

unfoldable pub places : Arithmetic → Fields → String → String → String → Reads ℤ
places a detail first second third = do
  x ← safe_int a (get_field detail first)
  y ← safe_int a (get_field detail second)
  z ← safe_int a (get_field detail third)
  ok ((or_zero x +ℤ or_zero y) +ℤ or_zero z)

total_rate : Arithmetic → Fields → Option ℤ → Reads (Option ℤ)
unfolding places
total_rate a detail none = ok none
total_rate a detail (some starts) =
    if ltz starts (pos 0)
    then ok none
    else places a detail "ord1CntT" "ord2CntT" "ord3CntT"
      >>= (λ won. or_overflow (a.divide won (starts +ℤ pos 15)))

unfoldable pub total_place_rate : Arithmetic → Fields → Reads (Option ℤ)
unfolding total_rate
total_place_rate a horse = do
  detail ← or_empty (get_field horse "hrDetail")
  starts ← safe_int a (get_field detail "rcCntT")
  total_rate a detail starts

year_rate : Arithmetic → Fields → Fields → Option ℤ → Reads (Option ℤ)
unfolding places
year_rate a horse detail none = total_place_rate a horse
year_rate a horse detail (some starts) =
    if ltz (pos 0) starts
    then places a detail "ord1CntY" "ord2CntY" "ord3CntY"
      >>= (λ won. or_overflow (a.divide won (starts +ℤ pos 2)))
    else total_place_rate a horse

unfoldable pub year_place_rate : Arithmetic → Fields → Reads (Option ℤ)
unfolding year_rate
year_place_rate a horse = do
  detail ← or_empty (get_field horse "hrDetail")
  starts ← safe_int a (get_field detail "rcCntY")
  year_rate a horse detail starts

unfoldable pub bool_score : Value → Option ℤ
unfolding one_unit
bool_score (bool true) = some (pos one_unit)
bool_score (bool false) = some (pos 0)
bool_score _ = none
