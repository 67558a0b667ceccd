-- ===== src/Predictions/Examples.antt =====
-- Predictions on small payloads, and the theorems at them.
use kra_analysis.Prelude.{
  ℕ, ◌-◌, List, [], ◌∷◌, Option, none, some, true, ◌&&◌, ◌||◌, if◌then◌else◌, leb, ◌==◌, ◌≡◌, refl,
  map, arith, All, length, ◌↔◌,
}
use kra_analysis.Prelude.Result.{Result, ok, err}
use kra_analysis.Prelude.Value.{Value, Fields, obj, arr, str, int, end, field, nil, cons, pos}
use kra_analysis.Prelude.Integers.{tuple_lt}
use kra_analysis.Prelude.Sorting.{sort_by}
use kra_analysis.Prelude.Table.{find, store, values}
use kra_analysis.Predictions.Conversions.{
  Platform, Raised, value_error, as_sequence, coerce_positive_chul_no, coerce_score,
  extract_candidate_fields,
}
use kra_analysis.Predictions.Candidate.{
  Candidate, candidate_priority_key, before, register, rank_candidates,
}
use kra_analysis.Predictions.Source.{select_raw_candidate_source}
use kra_analysis.Predictions.Lookups.{
  Card, build_score_lookup, register_score, register_sequence, extract_valid_chul_nos,
}
use kra_analysis.Predictions.Converts.{Converts}
use kra_analysis.Predictions.Ranked.{IsPrediction}
use kra_analysis.Predictions.Accepting.{is_accepted}
use kra_analysis.Predictions.Guarantees.{Convert, postprocess-IsPrediction, postprocess-valid}
use kra_analysis.Predictions.Supplements.{
  build_supplement_candidates, register_supplement_sequence, register_supplement_mapping,
}
use kra_analysis.Predictions.Report.{
  Report, collect_items, fill, complete, postprocess_report, postprocess_prediction_candidates,
  Report_to_dict,
}

-- ASCII digits and the superscript two, which is a digit and no decimal one; integers as scores.
abbrev pub ascii : Platform
ascii = record {
  is_space = λ c. c == 32;
  is_digit = λ c. (leb 48 c && leb c 57) || c == 178;
  decimal = λ c. if leb 48 c && leb c 57 then some (c - 48) else none;
  float_of_text = λ s. none;
  float_of_int = λ z. some z;
  text_of = λ v. "";
}

number : ℕ → Value
number n = int (pos n)

horse : ℕ → ℕ → Value
horse n score = obj (field "chulNo" (int (pos n)) (field "score" (int (pos score)) end))

abbrev payload : Fields
payload = field "predicted" (arr (cons (str " 7 ") (cons (int (pos 3)) (cons (str "7") nil)))) (
    field "predictions"
      (arr (cons (horse 1 40) (cons (horse 3 90) (cons (horse 7 60) (cons (horse 9 95) nil))))) end)

card : Option (List Value)
card = some (int (pos 1) ∷ int (pos 3) ∷ str "7" ∷ [])

ranked : Result Raised Report → List (ℕ × ℕ)
ranked (ok r) = map (λ (c : Candidate). (c.rank, c.chul_no)) r.normalized_candidates
ranked (err e) = []

runs : ranked (postprocess_report ascii payload none card) ≡ (1, 3) ∷ (2, 7) ∷ (3, 1) ∷ []
unfolding ranked postprocess_report card horse number build_score_lookup register_sequence
    register_score extract_valid_chul_nos select_raw_candidate_source as_sequence
    extract_candidate_fields coerce_score coerce_positive_chul_no collect_items complete
    rank_candidates build_supplement_candidates register_supplement_sequence
    register_supplement_mapping fill before candidate_priority_key tuple_lt sort_by register find
    store values
runs = refl

payload-Converts : Convert ascii payload none card (λ _. ⊥)
unfolding Converts coerce_positive_chul_no coerce_score card horse number
payload-Converts = omega arith

postprocess-IsPrediction_example :
    (r : Report) × (c : Card) × (postprocess_prediction_candidates ascii payload none card
      ≡ ok (Report_to_dict r))
    × (extract_valid_chul_nos ascii payload none card ≡ ok c)
    × IsPrediction c r.normalized_candidates
    × (r.normalized_candidate_count ≡ length r.normalized_candidates)
postprocess-IsPrediction_example = postprocess-IsPrediction ascii payload none card payload-Converts

postprocess-valid_example :
    (r : Report) × (c : Card) × (postprocess_prediction_candidates ascii payload none card
      ≡ ok (Report_to_dict r))
    × (extract_valid_chul_nos ascii payload none card ≡ ok c)
    × ((r.valid ≡ true) ↔ (
        ((select_raw_candidate_source payload none).issues ≡ [])
        × All
            (λ item. is_accepted ascii c item ≡ true)
            (select_raw_candidate_source payload none).raw_items
        × (length r.normalized_candidates ≡ 3)))
postprocess-valid_example = postprocess-valid ascii payload none card payload-Converts

-- A superscript is a digit that int() refuses.
superscript : coerce_positive_chul_no ascii (str "²") ≡ err value_error
unfolding coerce_positive_chul_no
superscript = refl
