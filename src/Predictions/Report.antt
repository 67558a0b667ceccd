-- ===== src/Predictions/Report.antt =====
-- postprocess_prediction_candidates (packages/scripts/shared/prediction_postprocessing.py).
use kra_analysis.Prelude.{
  ℕ, suc, String, List, [], ◌∷◌, ◌++◌, map, Option, none, some, Bool, true, false, if◌then◌else◌,
  length, ltb, ◌==◌, str_eq,
}
use kra_analysis.Prelude.Text.{◌+++◌, show_ℕ}
use kra_analysis.Prelude.Result.{Result, ok, ◌>>=◌}
use kra_analysis.Prelude.Value.{
  Value, Fields, Items, obj, arr, str, int, bool, nil, cons, end, field, pos,
}
use kra_analysis.Prelude.Table.{Table, find, values}
use kra_analysis.Predictions.Conversions.{
  Platform, Raised, Extracted, coerce_positive_chul_no, extract_candidate_fields,
}
use kra_analysis.Predictions.Candidate.{Candidate, Candidate_to_dict, register, rank_candidates}
use kra_analysis.Predictions.Source.{
  Issue, Issue_to_dict, RawCandidateSource, select_raw_candidate_source, text_or_null,
}
use kra_analysis.Predictions.Lookups.{Scores, Card, build_score_lookup, extract_valid_chul_nos}
use kra_analysis.Predictions.Supplements.{
  in_card, own_score, new_candidate, build_supplement_candidates,
}

pub record PredictionPostprocessReport : Type 0 where
  pub valid : Bool
  pub source_field : Option String
  pub raw_candidate_count : ℕ
  pub normalized_candidate_count : ℕ
  pub normalized_candidates : List Candidate
  pub issues : List Issue

abbrev pub Report : Type 0
Report = PredictionPostprocessReport

abbrev pub items_of : List Value → Items
items_of [] = nil
items_of (v ∷ vs) = cons v (items_of vs)

unfoldable pub Report_to_dict : Report → Value
Report_to_dict r = obj (
    field "valid" (bool r.valid) (
      field "source_field" (text_or_null r.source_field) (
        field "raw_candidate_count" (int (pos r.raw_candidate_count)) (
          field "normalized_candidate_count" (int (pos r.normalized_candidate_count)) (
            field "normalized_candidates"
              (arr (items_of (map Candidate_to_dict r.normalized_candidates)))
              (field "issue_codes" (arr (items_of (map (λ (i : Issue). str i.code) r.issues)))
                (field "issues" (arr (items_of (map Issue_to_dict r.issues))) end)))))))

unfoldable pub missing_candidates : Option String → Issue
missing_candidates source = record {
  code = "missing_prediction_candidates";
  message = "예측 후보 리스트를 찾지 못했다.";
  source_field = source;
  candidate_index = none;
  raw_value = Value.null;
}

invalid_number : Option String → ℕ → Value → Issue
invalid_number source index number = record {
  code = "invalid_horse_number_format";
  message = "말 번호는 양의 정수 또는 숫자 문자열이어야 한다.";
  source_field = source;
  candidate_index = some index;
  raw_value = number;
}

not_in_card : Option String → ℕ → Value → ℕ → Issue
unfolding show_ℕ
not_in_card source index number n = record {
  code = "horse_number_not_in_race_card";
  message = "말 번호 " +++ show_ℕ n +++ "는 출전표 확정 시점 출주마 목록에 없다.";
  source_field = source;
  candidate_index = some index;
  raw_value = number;
}

unfoldable pub count_not_three : Option String → ℕ → List Candidate → Issue
unfolding show_ℕ
count_not_three source raw candidates = record {
  code = "prediction_count_not_three";
  message =
      "정규화된 예측 후보 수가 3두가 아니다. raw="
      +++ show_ℕ raw
      +++ " normalized="
      +++ show_ℕ (length candidates);
  source_field = source;
  candidate_index = none;
  raw_value = arr (items_of (map (λ (c : Candidate). int (pos c.chul_no)) candidates));
}

-- source.source_field or "unknown"
abbrev pub or_unknown : Option String → String
or_unknown none = "unknown"
or_unknown (some s) = if str_eq s "" then "unknown" else s

-- What the loop over the items has put together.
pub record Collected : Type 0 where
  pub issues : List Issue
  pub merged : Table Candidate

unfoldable pub collect_number :
    Option String → Scores → Card → ℕ → Extracted → Option ℕ → Collected → Collected
unfolding find register invalid_number not_in_card
collect_number source scores card index extracted none c = record c {
  issues = c.issues ++ invalid_number source index extracted.0 ∷ [];
}
collect_number source scores card index extracted (some n) c =
    if in_card card n
    then record c {
      merged = register c.merged (
          new_candidate n (own_score extracted.2 (find scores n)) extracted.1 (or_unknown source)
            index);
    }
    else record c { issues = c.issues ++ not_in_card source index extracted.0 n ∷ [] }

-- for raw_index, raw_item in enumerate(source.raw_items, start=index)
unfoldable pub collect_items :
    Platform → Option String → Scores → Card → ℕ → List Value → Collected → Result Raised Collected
unfolding collect_number
collect_items p source scores card index [] c = ok c
collect_items p source scores card index (item ∷ items) c = do
  extracted ← extract_candidate_fields p item
  number ← coerce_positive_chul_no p extracted.0
  collect_items p source scores card (suc index) items
      (collect_number source scores card index extracted number c)

-- Supplements are appended until there are three candidates.
unfoldable pub fill : List Candidate → List Candidate → List Candidate
fill candidates [] = candidates
fill candidates (s ∷ supplements) =
    let longer = candidates ++ s ∷ [] in
    let rest = fill longer supplements in if length longer == 3 then longer else rest

unfoldable pub complete :
    Platform
    → Fields
    → Option Fields
    → Scores
    → Card
    → List Candidate
    → Result Raised (List Candidate)
unfolding build_supplement_candidates fill
complete p payload normalized scores card selected =
    if ltb (length selected) 3
    then build_supplement_candidates p payload normalized scores card
        (map (λ (c : Candidate). c.chul_no) selected)
      >>= (λ supplements. ok (rank_candidates (fill selected supplements) (some 3)))
    else ok selected

abbrev pub is_empty : List Issue → Bool
is_empty [] = true
is_empty _ = false

unfoldable pub report_of : RawCandidateSource → List Issue → List Candidate → Report
report_of source issues candidates = record {
  valid = is_empty issues;
  source_field = source.source_field;
  raw_candidate_count = length source.raw_items;
  normalized_candidate_count = length candidates;
  normalized_candidates = candidates;
  issues = issues;
}

unfoldable pub count_checked : RawCandidateSource → List Issue → List Candidate → Report
unfolding report_of count_not_three
count_checked source issues candidates =
    let short = count_not_three source.source_field (length source.raw_items) candidates in
    report_of source (if length candidates == 3 then issues else issues ++ short ∷ []) candidates

unfoldable pub missing_report : RawCandidateSource → Report
unfolding missing_candidates
missing_report source = record {
  valid = false;
  source_field = source.source_field;
  raw_candidate_count = 0;
  normalized_candidate_count = 0;
  normalized_candidates = [];
  issues = source.issues ++ missing_candidates source.source_field ∷ [];
}

unfoldable pub process_items :
    Platform
    → Fields
    → Option Fields
    → Scores
    → Card
    → RawCandidateSource
    → List Value
    → Result Raised Report
unfolding missing_report count_checked
process_items p payload normalized scores card source [] = ok (missing_report source)
process_items p payload normalized scores card source (item ∷ items) = do
  collected ←
      collect_items p source.source_field scores card 1 (item ∷ items)
        (record { issues = source.issues; merged = [] })
  candidates ←
      complete p payload normalized scores card (rank_candidates (values collected.merged) (some 3))
  ok (count_checked source collected.issues candidates)

unfoldable pub postprocess_report :
    Platform → Fields → Option Fields → Option (List Value) → Result Raised Report
unfolding process_items
postprocess_report p payload normalized valid_chul_nos =
    let source = select_raw_candidate_source payload normalized in
    do
      scores ← build_score_lookup p payload normalized
      card ← extract_valid_chul_nos p payload normalized valid_chul_nos
      process_items p payload normalized scores card source source.raw_items

-- The report is returned as a dict.
unfoldable pub postprocess_prediction_candidates :
    Platform → Fields → Option Fields → Option (List Value) → Result Raised Value
unfolding postprocess_report
postprocess_prediction_candidates p payload normalized valid_chul_nos =
    postprocess_report p payload normalized valid_chul_nos >>= (λ r. ok (Report_to_dict r))
