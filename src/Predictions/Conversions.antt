-- ===== src/Predictions/Conversions.antt =====
-- prediction_postprocessing.py: horse numbers and scores from arbitrary values, and the fields of an
-- item. Finite floats are integers of units, as in Prelude/Value.
use kra_analysis.Prelude.{
  ℕ, zero, suc, ◌+◌, ◌*◌, ◌^◌, String, List, [], ◌∷◌, reverse, Option, none, some, Bool, false,
  ◌&&◌, if◌then◌else◌, ltb, ◌==◌, str_eq, length, all,
}
use Prim.Native.Nat.{◌/◌, ◌%◌}
use Prim.Native.Char.{code}
use kra_analysis.Prelude.Result.{Result, ok, err, ◌>>=◌}
use kra_analysis.Prelude.Value.{
  Value, Fields, null, obj, arr, str, float, int, bool, ℤ, pos, negsuc, Float, finite, infinite,
  nan,
}
use kra_analysis.Prelude.Objects.{find_field, get_field, elements, is_null}

-- What the interpreter knows: the database of characters, by code point, and the conversions
-- between texts, integers and floats. `none` stands for the exception.
pub record Platform : Type 0 where
  pub is_space : ℕ → Bool
  pub is_digit : ℕ → Bool
  pub decimal : ℕ → Option ℕ
  pub float_of_text : String → Option Float
  pub float_of_int : ℤ → Option ℤ
  pub text_of : Value → String

-- The exceptions that leave the module: of `int(text)` and of `float(integer)`.
pub data Raised : Type 0 where
  value_error overflow_error : Raised

abbrev pub codes : String → List ℕ
codes String.[] = []
codes (String.◌∷◌ c s) = code c ∷ codes s

strip_front : (ℕ → Bool) → List ℕ → List ℕ
strip_front space [] = []
strip_front space (c ∷ cs) = if space c then strip_front space cs else c ∷ cs

unfoldable pub strip : (ℕ → Bool) → List ℕ → List ℕ
unfolding strip_front
strip space cs = reverse (strip_front space (reverse (strip_front space cs)))

-- text.isdigit()
unfoldable pub isdigit : Platform → List ℕ → Bool
isdigit p [] = false
isdigit p (c ∷ cs) = p.is_digit c && all p.is_digit cs

int_from : (ℕ → Option ℕ) → ℕ → List ℕ → Result Raised ℕ
int_from decimal n [] = ok n
int_from decimal n (c ∷ cs) = elim (decimal c) [
  | none ↦ err value_error
  | some d ↦ int_from decimal (10 * n + d) cs
]

-- int(text), of digits only: each must be a decimal one, and there may be 4300 of them.
unfoldable pub int_of_digits : Platform → List ℕ → Result Raised ℕ
unfolding int_from
int_of_digits p text = if ltb 4300 (length text) then err value_error else int_from p.decimal 0 text

abbrev pub positive : ℕ → Option ℕ
positive zero = none
positive (suc n) = some (suc n)

-- How many units make 1.0.
unfoldable pub one_unit : ℕ
one_unit = 2 ^ 1074

unfoldable pub coerce_positive_chul_no : Platform → Value → Result Raised (Option ℕ)
unfolding one_unit strip isdigit int_of_digits
coerce_positive_chul_no p (bool b) = ok none
coerce_positive_chul_no p (int (pos n)) = ok (positive n)
coerce_positive_chul_no p (int (negsuc n)) = ok none
coerce_positive_chul_no p (float (finite (pos n))) =
    ok (if n % one_unit == 0 then positive (n / one_unit) else none)
coerce_positive_chul_no p (float (finite (negsuc n))) = ok none
coerce_positive_chul_no p (float (infinite s)) = ok none
coerce_positive_chul_no p (float nan) = ok none
coerce_positive_chul_no p (str s) =
    let text = strip p.is_space (codes s) in
    if isdigit p text then int_of_digits p text >>= (λ n. ok (positive n)) else ok none
coerce_positive_chul_no p null = ok none
coerce_positive_chul_no p (obj f) = ok none
coerce_positive_chul_no p (arr xs) = ok none

unfoldable pub as_sequence : Value → Option (List Value)
as_sequence (arr xs) = some (elements xs)
as_sequence _ = none

-- `items = _as_sequence(value)`, `if items is None: return default`
abbrev pub when_sequence {ℓ} : {A : Type ℓ} → Option (List Value) → A → (List Value → A) → A
when_sequence none default f = default
when_sequence (some items) default f = f items

abbrev pub finite_score : Float → Option ℤ
finite_score (finite z) = some z
finite_score _ = none

abbrev pub parsed_score : Option Float → Option ℤ
parsed_score none = none
parsed_score (some x) = finite_score x

abbrev pub converted_score : Option ℤ → Result Raised (Option ℤ)
converted_score none = err overflow_error
converted_score (some z) = ok (some z)

unfoldable pub coerce_score : Platform → Value → Result Raised (Option ℤ)
coerce_score p (bool b) = ok none
coerce_score p (int z) = converted_score (p.float_of_int z)
coerce_score p (float x) = ok (finite_score x)
coerce_score p (str s) = ok (parsed_score (p.float_of_text s))
coerce_score p null = ok none
coerce_score p (obj f) = ok none
coerce_score p (arr xs) = ok none

-- The value of the first of these keys that the item has.
unfoldable pub first_present : List String → Fields → Value
first_present [] f = null
first_present (k ∷ ks) f = elim (find_field f k) [ none ↦ first_present ks f | some v ↦ v ]

abbrev pub or_next : Option ℤ → Result Raised (Option ℤ) → Result Raised (Option ℤ)
or_next none next = next
or_next (some z) next = ok (some z)

abbrev pub score_under :
    Platform → Option Value → Result Raised (Option ℤ) → Result Raised (Option ℤ)
score_under p none next = next
score_under p (some v) next = coerce_score p v >>= (λ score. or_next score next)

-- The score under the first of these keys whose value is a finite number.
unfoldable pub first_score : Platform → List String → Fields → Result Raised (Option ℤ)
first_score p [] f = ok none
first_score p (k ∷ ks) f = score_under p (find_field f k) (first_score p ks f)

unfoldable pub first_non_null : List String → Fields → Value
first_non_null [] f = null
first_non_null (k ∷ ks) f = if is_null (get_field f k) then first_non_null ks f else get_field f k

-- str(hr_name) if hr_name not in (None, "") else None
unfoldable pub name_text : Platform → Value → Option String
name_text p null = none
name_text p (str s) = if str_eq s "" then none else some s
name_text p v = some (p.text_of v)

-- raw_number, hr_name and score
abbrev pub Extracted : Type 0
Extracted = Value × Option String × Option ℤ

abbrev pub score_keys : List String
score_keys =
    "score" ∷ "primary_score" ∷ "model_score" ∷ "win_probability" ∷ "place_probability" ∷ "edge"
    ∷ []

abbrev pub number_keys : List String
number_keys = "chulNo" ∷ "horse_no" ∷ "horseNo" ∷ "number" ∷ []

unfoldable pub extract_candidate_fields : Platform → Value → Result Raised Extracted
unfolding first_present first_non_null first_score name_text
extract_candidate_fields p (obj f) = first_score p score_keys f >>= (λ score. ok (
  first_present ("chulNo" ∷ "horse_no" ∷ "horseNo" ∷ "number" ∷ []) f,
  name_text p (first_non_null ("hrName" ∷ "horse_name" ∷ "name" ∷ []) f),
  score,
))
extract_candidate_fields p item = ok (item, none, none)
