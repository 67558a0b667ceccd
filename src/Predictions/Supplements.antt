-- ===== src/Predictions/Supplements.antt =====
-- prediction_postprocessing.py: the candidates that fill a prediction of fewer than three horses.
use kra_analysis.Prelude.{
  ℕ, suc, String, List, [], ◌∷◌, Option, none, some, Bool, true, not, if◌then◌else◌, keep,
}
use kra_analysis.Prelude.Text.{◌+++◌}
use kra_analysis.Prelude.Result.{Result, ok, ◌>>=◌}
use kra_analysis.Prelude.Value.{Value, Fields, obj, str, ℤ}
use kra_analysis.Prelude.Objects.{get_field, entries}
use kra_analysis.Prelude.Sorting.{sort_by}
use kra_analysis.Prelude.Table.{Table, find, values, member}
use kra_analysis.Predictions.Conversions.{
  Platform, Raised, Extracted, as_sequence, when_sequence, coerce_positive_chul_no, coerce_score,
  extract_candidate_fields,
}
use kra_analysis.Predictions.Candidate.{Candidate, register, before}
use kra_analysis.Predictions.Lookups.{Scores, Card}

-- valid_numbers is None or chul_no in valid_numbers
abbrev pub in_card : Card → ℕ → Bool
in_card none n = true
in_card (some set) n = member set n

-- raw_score if raw_score is not None else score_lookup.get(chul_no)
abbrev pub own_score : Option ℤ → Option ℤ → Option ℤ
own_score none looked_up = looked_up
own_score (some z) looked_up = some z

abbrev pub new_candidate : ℕ → Option ℤ → Option String → String → ℕ → Candidate
new_candidate n score name source index = record {
  rank = 0;
  chul_no = n;
  score = score;
  hr_name = name;
  source_field = source;
  raw_index = index;
}

unfoldable pub register_number :
    String → Scores → Card → ℕ → Extracted → Table Candidate → Option ℕ → Table Candidate
unfolding find
register_number source scores card index extracted table none = table
register_number source scores card index extracted table (some n) =
    if in_card card n
    then register table
        (new_candidate n (own_score extracted.2 (find scores n)) extracted.1 source index)
    else table

unfoldable pub supplement_items :
    Platform
    → String
    → Scores
    → Card
    → ℕ
    → List Value
    → Table Candidate
    → Result Raised (Table Candidate)
unfolding register_number
supplement_items p source scores card index [] table = ok table
supplement_items p source scores card index (item ∷ items) table = do
  extracted ← extract_candidate_fields p item
  number ← coerce_positive_chul_no p extracted.0
  supplement_items p source scores card (suc index) items
      (register_number source scores card index extracted table number)

unfoldable pub register_supplement_sequence :
    Platform → String → Scores → Card → Value → Table Candidate → Result Raised (Table Candidate)
unfolding supplement_items
register_supplement_sequence p source scores card v table =
    when_sequence (as_sequence v) (ok table)
      (λ items. supplement_items p source scores card 1 items table)

unfoldable pub register_scored :
    String → Card → ℕ → Table Candidate → Option ℕ → Option ℤ → Table Candidate
register_scored source card index table none score = table
register_scored source card index table (some n) none = table
register_scored source card index table (some n) (some z) =
    if in_card card n then register table (new_candidate n (some z) none source index) else table

unfoldable pub supplement_pairs :
    Platform
    → String
    → Card
    → ℕ
    → List (String × Value)
    → Table Candidate
    → Result Raised (Table Candidate)
unfolding register_scored
supplement_pairs p source card index [] table = ok table
supplement_pairs p source card index ((k, v) ∷ pairs) table = do
  number ← coerce_positive_chul_no p (str k)
  score ← coerce_score p v
  supplement_pairs p source card (suc index) pairs
      (register_scored source card index table number score)

unfoldable pub register_supplement_mapping :
    Platform → String → Card → Value → Table Candidate → Result Raised (Table Candidate)
unfolding supplement_pairs
register_supplement_mapping p source card (obj f) table =
    supplement_pairs p source card 1 (entries f) table
register_supplement_mapping p source card _ table = ok table

unfoldable pub supplement_container :
    Platform → String → Scores → Card → Fields → Table Candidate → Result Raised (Table Candidate)
supplement_container p name scores card f t0 = do
  t1 ←
      register_supplement_sequence p (name +++ ".primary_scores") scores card
        (get_field f "primary_scores") t0
  t2 ←
      register_supplement_sequence p (name +++ ".predictions") scores card
        (get_field f "predictions") t1
  t3 ←
      register_supplement_sequence p (name +++ ".fallback_ranking") scores card
        (get_field f "fallback_ranking") t2
  register_supplement_mapping p (name +++ ".model_scores") card (get_field f "model_scores") t3

unfoldable pub supplement_optional :
    Platform → Scores → Card → Option Fields → Result Raised (Table Candidate)
unfolding supplement_container
supplement_optional p scores card none = ok []
supplement_optional p scores card (some f) = supplement_container p "normalized" scores card f []

-- The normalized payload first, then the raw one; the horses that are selected are left out.
unfoldable pub build_supplement_candidates :
    Platform → Fields → Option Fields → Scores → Card → List ℕ → Result Raised (List Candidate)
unfolding supplement_optional supplement_container
build_supplement_candidates p payload normalized scores card excluded = do
  t0 ← supplement_optional p scores card normalized
  t1 ← supplement_container p "raw" scores card payload t0
  ok (keep (λ c. not (member excluded c.chul_no)) (sort_by before (values t1)))
