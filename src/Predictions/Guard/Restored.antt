-- ===== src/Predictions/Guard/Restored.antt =====
-- Reading the report back: its candidates, its issue codes and its race card.
use kra_analysis.Prelude.{
  ℕ, zero, suc, ◌<◌, String, List, [], ◌∷◌, map, Option, none, some, false, All, ◌≡◌, refl, ap,
  arith, str_eq, Bool-cases, inl, inr,
}
use kra_analysis.Prelude.Result.{ok}
use kra_analysis.Prelude.Value.{
  Value, Fields, null, obj, arr, str, float, int, bool, end, ℤ, pos, negsuc, Float, finite,
  infinite, nan,
}
use kra_analysis.Prelude.Objects.{elements}
use kra_analysis.Predictions.Conversions.{
  Platform, coerce_positive_chul_no, codes, strip, isdigit, positive,
}
use kra_analysis.Predictions.Candidate.{Candidate, Candidate_to_dict, score_or_null, text_or_null}
use kra_analysis.Predictions.Report.{items_of}
use kra_analysis.Predictions.Guard.Reading.{
  FinalCandidate, coerce_chul_no, score_value, non_empty, candidate_from_dict, base_candidates,
}

-- The two copies of _coerce_positive_chul_no agree.
pub coerce_chul_no-eq :
    (p : Platform) (v : Value) → coerce_chul_no p v ≡ coerce_positive_chul_no p v
unfolding coerce_chul_no coerce_positive_chul_no
coerce_chul_no-eq p (bool b) = refl
coerce_chul_no-eq p (int (pos n)) = refl
coerce_chul_no-eq p (int (negsuc n)) = refl
coerce_chul_no-eq p (float (finite (pos n))) = refl
coerce_chul_no-eq p (float (finite (negsuc n))) = refl
coerce_chul_no-eq p (float (infinite s)) = refl
coerce_chul_no-eq p (float nan) = refl
coerce_chul_no-eq p (str s) = elim (Bool-cases (isdigit p (strip p.is_space (codes s)))) [
  | inl e ↦ rw e refl
  | inr e ↦ rw e refl
]
coerce_chul_no-eq p null = refl
coerce_chul_no-eq p (obj f) = refl
coerce_chul_no-eq p (arr xs) = refl

pub elements-items_of : (vs : List Value) → elements (items_of vs) ≡ vs
elements-items_of [] = refl
elements-items_of (v ∷ vs) = ap (◌∷◌ v) (elements-items_of vs)

abbrev float_of : Option ℤ → Option Float
float_of none = none
float_of (some z) = some (finite z)

abbrev name_of : Option String → Option String
name_of none = none
name_of (some s) = non_empty (str s)

-- A candidate of the report, with its score as a float.
abbrev pub restored : Candidate → FinalCandidate
restored c = record {
  rank = c.rank;
  chul_no = c.chul_no;
  score = float_of c.score;
  hr_name = name_of c.hr_name;
  source_field = c.source_field;
  raw_index = c.raw_index;
}

-- The numbers and the source are those that are read.
abbrev pub IsReadable : Candidate → Type 0
IsReadable c =
    (0 < c.rank) × (0 < c.chul_no) × (0 < c.raw_index) × (str_eq c.source_field "" ≡ false)

positive_eq : (n : ℕ) → 0 < n → positive n ≡ some n
positive_eq zero h = absurd (omega arith)
positive_eq (suc n) h = refl

abbrev fields_of : Value → Fields
fields_of (obj f) = f
fields_of _ = end

module _ (p : Platform) where
  score_restored : (s : Option ℤ) → score_value p (score_or_null s) ≡ ok (float_of s)
  unfolding score_value
  score_restored none = refl
  score_restored (some z) = refl

  name_restored : (s : Option String) → non_empty (text_or_null s) ≡ name_of s
  name_restored none = refl
  name_restored (some s) = refl

  source_restored : (s : String) → str_eq s "" ≡ false → non_empty (str s) ≡ some s
  source_restored s h = rw h refl

  candidate_from_dict-restored :
      (c : Candidate)
      → IsReadable c
      → candidate_from_dict p (fields_of (Candidate_to_dict c)) ≡ ok (some (restored c))
  unfolding candidate_from_dict Candidate_to_dict
  candidate_from_dict-restored c (r, n, i, s) =
      rw
        (
          positive_eq c.rank r,
          positive_eq c.chul_no n,
          positive_eq c.raw_index i,
          score_restored c.score,
          name_restored c.hr_name,
          source_restored c.source_field s,
        )
        refl

  -- The candidates of a report are read back one by one.
  pub base_candidates-restored :
      (cs : List Candidate)
      → All IsReadable cs
      → base_candidates p (map Candidate_to_dict cs) ≡ ok (map restored cs)
  unfolding base_candidates Candidate_to_dict
  base_candidates-restored [] h = refl
  base_candidates-restored (c ∷ cs) h =
      rw (candidate_from_dict-restored c h.0, base_candidates-restored cs h.1) refl
