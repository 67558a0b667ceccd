-- ===== src/Predictions/Guard/Reading.antt =====
-- packages/scripts/shared/prediction_output_guard.py: the final three horses of a prediction.
use kra_analysis.Prelude.{
  ℕ, String, List, [], ◌∷◌, ◌++◌, Option, none, some, Bool, true, false, not, ◌||◌, if◌then◌else◌,
  keep, ◌==◌, str_eq,
}
use Prim.Native.Nat.{◌/◌, ◌%◌}
use kra_analysis.Prelude.Result.{Result, ok, err, ◌>>=◌}
use kra_analysis.Prelude.Value.{
  Value, Fields, null, obj, arr, str, float, int, bool, ℤ, pos, negsuc, Float, finite, infinite,
  nan,
}
use kra_analysis.Prelude.Objects.{get_field, elements}
use kra_analysis.Prelude.Table.{member}
use kra_analysis.Predictions.Conversions.{
  Platform, Raised, overflow_error, codes, strip, isdigit, int_of_digits, positive, one_unit,
}

-- The module has a copy of its own of _coerce_positive_chul_no.
unfoldable pub coerce_chul_no : Platform → Value → Result Raised (Option ℕ)
unfolding one_unit strip isdigit int_of_digits
coerce_chul_no p (bool b) = ok none
coerce_chul_no p (int (pos n)) = ok (positive n)
coerce_chul_no p (int (negsuc n)) = ok none
coerce_chul_no p (float (finite (pos n))) =
    ok (if n % one_unit == 0 then positive (n / one_unit) else none)
coerce_chul_no p (float (finite (negsuc n))) = ok none
coerce_chul_no p (float (infinite s)) = ok none
coerce_chul_no p (float nan) = ok none
coerce_chul_no p (str s) =
    let text = strip p.is_space (codes s) in
    if not (isdigit p text) then ok none else int_of_digits p text >>= (λ n. ok (positive n))
coerce_chul_no p null = ok none
coerce_chul_no p (obj f) = ok none
coerce_chul_no p (arr xs) = ok none

-- `ordered` and `seen` are the same numbers.
abbrev pub add_new : Option ℕ → List ℕ → List ℕ
add_new none ordered = ordered
add_new (some n) ordered = if member ordered n then ordered else ordered ++ n ∷ []

unfoldable pub ordered_from : Platform → List Value → List ℕ → Result Raised (List ℕ)
ordered_from p [] ordered = ok ordered
ordered_from p (v ∷ vs) ordered =
    coerce_chul_no p v >>= (λ number. ordered_from p vs (add_new number ordered))

unfoldable pub ordered_valid_chul_nos : Platform → Option (List Value) → Result Raised (List ℕ)
unfolding ordered_from
ordered_valid_chul_nos p none = ok []
ordered_valid_chul_nos p (some values) = ordered_from p values []

-- float(score) if isinstance(score, (int, float)) else None. A bool is an int.
abbrev pub float_score : Option ℤ → Result Raised (Option Float)
float_score none = err overflow_error
float_score (some z) = ok (some (finite z))

unfoldable pub score_value : Platform → Value → Result Raised (Option Float)
unfolding one_unit
score_value p (int z) = float_score (p.float_of_int z)
score_value p (float x) = ok (some x)
score_value p (bool true) = ok (some (finite (pos one_unit)))
score_value p (bool false) = ok (some (finite (pos 0)))
score_value p _ = ok none

-- A candidate whose score may be any float.
pub record FinalCandidate : Type 0 where
  pub rank : ℕ
  pub chul_no : ℕ
  pub score : Option Float
  pub hr_name : Option String
  pub source_field : String
  pub raw_index : ℕ

abbrev pub non_empty : Value → Option String
non_empty (str s) = if str_eq s "" then none else some s
non_empty _ = none

abbrev pub built :
    Option ℕ
    → Option ℕ
    → Option ℕ
    → Option Float
    → Option String
    → Option String
    → Option FinalCandidate
built (some n) (some r) (some i) score name (some source) = some (record {
  rank = r;
  chul_no = n;
  score = score;
  hr_name = name;
  source_field = source;
  raw_index = i;
})
built (some n) (some r) (some i) score name none = none
built (some n) (some r) none score name source = none
built (some n) none i score name source = none
built none r i score name source = none

-- The score is read only where the three numbers are there.
abbrev pub with_score :
    Platform → Option ℕ → Option ℕ → Option ℕ → Fields → Result Raised (Option FinalCandidate)
with_score p (some n) (some r) (some i) f = score_value p (get_field f "score") >>= (λ score. ok (
    built (some n) (some r) (some i) score (non_empty (get_field f "hrName"))
      (non_empty (get_field f "source_field"))))
with_score p (some n) (some r) none f = ok none
with_score p (some n) none i f = ok none
with_score p none r i f = ok none

unfoldable pub candidate_from_dict : Platform → Fields → Result Raised (Option FinalCandidate)
unfolding coerce_chul_no score_value
candidate_from_dict p f = do
  number ← coerce_chul_no p (get_field f "chulNo")
  rank ← coerce_chul_no p (get_field f "rank")
  index ← coerce_chul_no p (get_field f "raw_index")
  with_score p number rank index f

pub record RepairAction : Type 0 where
  pub code : String
  pub message : String
  pub chul_no : Option ℕ

abbrev add_candidate : Option FinalCandidate → List FinalCandidate → List FinalCandidate
add_candidate none rest = rest
add_candidate (some c) rest = c ∷ rest

-- The candidates of the report that can be read back.
unfoldable pub base_candidates : Platform → List Value → Result Raised (List FinalCandidate)
unfolding candidate_from_dict
base_candidates p [] = ok []
base_candidates p (obj f ∷ items) = do
  candidate ← candidate_from_dict p f
  rest ← base_candidates p items
  ok (add_candidate candidate rest)
base_candidates p (_ ∷ items) = base_candidates p items

abbrev pub sequence_of : Value → List Value
sequence_of (arr xs) = elements xs
sequence_of _ = []

abbrev pub is_code : String → Value → Bool
is_code code (str s) = str_eq s code
is_code code _ = false

abbrev pub is_repairable : Value → Bool
is_repairable code =
    is_code "invalid_horse_number_format" code || is_code "prediction_count_not_three" code

unfoldable pub blocking_codes : List Value → List Value
blocking_codes codes = keep (λ code. not (is_repairable code)) codes
