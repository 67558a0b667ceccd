-- ===== src/Predictions/Guard/Examples.antt =====
-- The guard on a prediction of one horse, and its theorems there.
use kra_analysis.Prelude.{
  ℕ, List, [], ◌∷◌, ◌++◌, map, Option, none, some, true, false, ◌&&◌, length, ◌==◌, ◌≡◌, refl, inr,
  arith,
}
use kra_analysis.Prelude.Result.{Result, ok, err}
use kra_analysis.Prelude.Value.{Value, Fields, arr, str, int, end, field, nil, cons, pos}
use kra_analysis.Prelude.Integers.{tuple_lt}
use kra_analysis.Prelude.Sorting.{sort_by}
use kra_analysis.Prelude.Table.{find, store, values}
use kra_analysis.Predictions.Conversions.{
  Raised, as_sequence, coerce_positive_chul_no, coerce_score, extract_candidate_fields,
}
use kra_analysis.Predictions.Candidate.{candidate_priority_key, before, register, rank_candidates}
use kra_analysis.Predictions.Source.{select_raw_candidate_source}
use kra_analysis.Predictions.Lookups.{
  Card, build_score_lookup, register_sequence, extract_valid_chul_nos,
}
use kra_analysis.Predictions.Supplements.{
  build_supplement_candidates, register_supplement_sequence, register_supplement_mapping,
}
use kra_analysis.Predictions.Report.{Report, postprocess_report, collect_items, complete, fill}
use kra_analysis.Predictions.Converts.{Converts}
use kra_analysis.Predictions.Guarantees.{Convert}
use kra_analysis.Predictions.Ranked.{chul_no_of}
use kra_analysis.Predictions.Examples.{ascii}
use kra_analysis.Predictions.Guard.Reading.{blocking_codes, coerce_chul_no, ordered_valid_chul_nos}
use kra_analysis.Predictions.Guard.Output.{
  GuardResult, GuardResult_to_dict, number_of, is_nil, guard_prediction_output,
}
use kra_analysis.Predictions.Guard.Finals.{IsFinal}
use kra_analysis.Predictions.Guard.Accepted.{codes_of, guard-IsFinal, guard-accepts}

abbrev payload : Fields
payload = field "predicted" (arr (cons (int (pos 7)) (cons (str "x") nil))) end

abbrev card : Option (List Value)
card = some (int (pos 1) ∷ str " 7 " ∷ int (pos 1) ∷ int (pos 3) ∷ [])

payload-Converts : Convert ascii payload none card (λ _. ⊥)
unfolding Converts coerce_positive_chul_no coerce_score
payload-Converts = omega arith

guard-IsFinal_example :
    (g : GuardResult) × (c : Card) × (guard_prediction_output ascii payload none card
      ≡ ok (GuardResult_to_dict g))
    × (extract_valid_chul_nos ascii payload none card ≡ ok c)
    × IsFinal c g.final_candidates
    × (g.accepted ≡ (length g.final_candidates == 3 && is_nil g.blocking_issue_codes))
guard-IsFinal_example = guard-IsFinal ascii payload none card payload-Converts

abbrev report_of : Result Raised Report → Report → Report
report_of (ok r) other = r
report_of (err e) other = other

abbrev no_report : Report
no_report = record {
  valid = false;
  source_field = none;
  raw_candidate_count = 0;
  normalized_candidate_count = 0;
  normalized_candidates = [];
  issues = [];
}

abbrev report : Report
report = report_of (postprocess_report ascii payload none card) no_report

found : postprocess_report ascii payload none card ≡ ok report
unfolding postprocess_report build_score_lookup register_sequence extract_valid_chul_nos
    select_raw_candidate_source as_sequence extract_candidate_fields coerce_score
    coerce_positive_chul_no collect_items complete rank_candidates build_supplement_candidates
    register_supplement_sequence register_supplement_mapping fill before candidate_priority_key
    tuple_lt sort_by register find store values
found = refl

clear : blocking_codes (codes_of report) ≡ []
unfolding blocking_codes postprocess_report build_score_lookup register_sequence
    extract_valid_chul_nos select_raw_candidate_source as_sequence extract_candidate_fields
    coerce_score coerce_positive_chul_no collect_items complete rank_candidates
    build_supplement_candidates register_supplement_sequence register_supplement_mapping fill before
    candidate_priority_key tuple_lt sort_by register find store values
clear = refl

ordered : ordered_valid_chul_nos ascii card ≡ ok (1 ∷ 7 ∷ 3 ∷ [])
unfolding ordered_valid_chul_nos coerce_chul_no
ordered = refl

guard-accepts_example :
    (g : GuardResult) × (others : List ℕ) × (guard_prediction_output ascii payload none card
      ≡ ok (GuardResult_to_dict g))
    × (g.accepted ≡ true)
    × (length g.final_candidates ≡ 3)
    × (map number_of g.final_candidates ≡ map chul_no_of report.normalized_candidates ++ others)
guard-accepts_example =
    guard-accepts ascii payload none card report (1 ∷ 7 ∷ 3 ∷ []) payload-Converts found clear
      ordered (inr (omega arith))
