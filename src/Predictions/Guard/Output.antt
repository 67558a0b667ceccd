-- ===== src/Predictions/Guard/Output.antt =====
-- guard_prediction_output (packages/scripts/shared/prediction_output_guard.py).
use kra_analysis.Prelude.{
  ℕ, suc, ◌+◌, String, List, [], ◌∷◌, ◌++◌, map, Option, none, some, Bool, true, false, not, ◌&&◌,
  ◌||◌, if◌then◌else◌, length, any, take, ltb, ◌==◌,
}
use kra_analysis.Prelude.Result.{Result, ok, ◌>>=◌}
use kra_analysis.Prelude.Value.{
  Value, Fields, null, obj, arr, str, float, int, bool, end, field, ℤ, pos, Float,
}
use kra_analysis.Prelude.Integers.{ltz}
use kra_analysis.Prelude.Objects.{get_field}
use kra_analysis.Prelude.Table.{member}
use kra_analysis.Predictions.Conversions.{Platform, Raised}
use kra_analysis.Predictions.Report.{postprocess_prediction_candidates, items_of}
use kra_analysis.Predictions.Guard.Reading.{
  FinalCandidate, RepairAction, ordered_valid_chul_nos, base_candidates, blocking_codes,
  sequence_of, is_code,
}

-- What the repair has put together; the selected numbers are those of the candidates.
pub record Repair : Type 0 where
  pub final_candidates : List FinalCandidate
  pub repair_actions : List RepairAction

abbrev pub number_of : FinalCandidate → ℕ
number_of c = c.chul_no

unfoldable pub fallback : ℕ → ℕ → FinalCandidate
fallback rank n = record {
  rank = rank;
  chul_no = n;
  score = none;
  hr_name = none;
  source_field = "race_card_fallback";
  raw_index = 0;
}

filled_action : ℕ → RepairAction
filled_action n = record {
  code = "filled_from_race_card";
  message = "출전표 확정 시점 출주마 목록 순서로 누락된 자리를 채웠다.";
  chul_no = some n;
}

unfoldable pub add_horse : ℕ → Repair → Repair
unfolding fallback filled_action
add_horse n r = record {
  final_candidates = r.final_candidates ++ fallback (length r.final_candidates + 1) n ∷ [];
  repair_actions = r.repair_actions ++ filled_action n ∷ [];
}

abbrev pub is_selected : List FinalCandidate → ℕ → Bool
is_selected candidates n = member (map number_of candidates) n

-- The loop over the race card: a selected horse is passed over, and three are enough.
unfoldable pub fill_from_card : List ℕ → Repair → Repair
unfolding add_horse
fill_from_card [] r = r
fill_from_card (n ∷ ns) r =
    let longer = add_horse n r in
    let rest = fill_from_card ns longer in
    let passed = fill_from_card ns r in
    if is_selected r.final_candidates n
    then passed
    else if length longer.final_candidates == 3
    then longer
    else rest

pub record PredictionOutputGuardResult : Type 0 where
  pub accepted : Bool
  pub repaired : Bool
  pub repairable : Bool
  pub final_candidates : List FinalCandidate
  pub blocking_issue_codes : List Value
  pub repair_actions : List RepairAction
  pub validation_report : Value

abbrev pub GuardResult : Type 0
GuardResult = PredictionOutputGuardResult

abbrev pub is_nil {ℓ} : {A : Type ℓ} → List A → Bool
is_nil [] = true
is_nil (x ∷ xs) = false

dedup_action : RepairAction
dedup_action = record {
  code = "deduped_or_trimmed_candidates";
  message = "중복 또는 초과 후보를 제거해 top3 후보를 정규화했다.";
  chul_no = none;
}

discard_action : RepairAction
discard_action = record {
  code = "discarded_invalid_format_candidates";
  message = "형식이 잘못된 말 번호 후보를 버리고 유효 후보만 유지했다.";
  chul_no = none;
}

-- validation_report.get(key, 0) for a count
abbrev count_in : Value → ℤ
count_in (int z) = z
count_in _ = pos 0

unfoldable pub first_actions : Fields → List Value → List RepairAction
unfolding dedup_action discard_action
first_actions report codes =
    (if ltz (count_in (get_field report "normalized_candidate_count"))
        (count_in (get_field report "raw_candidate_count"))
      then dedup_action ∷ []
      else [])
    ++ (if any (is_code "invalid_horse_number_format") codes then discard_action ∷ [] else [])

abbrev pub renumbered : ℕ → List FinalCandidate → List FinalCandidate
renumbered i [] = []
renumbered i (c ∷ cs) = record c { rank = i } ∷ renumbered (suc i) cs

unfoldable pub guard_result :
    Value → List Value → List FinalCandidate → List RepairAction → GuardResult
unfolding blocking_codes
guard_result report codes candidates actions =
    let final = renumbered 1 (take 3 candidates) in
    let open_gate = is_nil (blocking_codes codes) in
    record {
      accepted = length final == 3 && open_gate;
      repaired = not (is_nil actions) || not (is_nil codes);
      repairable = open_gate;
      final_candidates = final;
      blocking_issue_codes = blocking_codes codes;
      repair_actions = actions;
      validation_report = report;
    }

-- The race card is read only where candidates are missing and no issue blocks.
unfoldable pub repair : Platform → Option (List Value) → List Value → Repair → Result Raised Repair
unfolding ordered_valid_chul_nos fill_from_card
repair p valid codes r =
    if is_nil (blocking_codes codes) && ltb (length r.final_candidates) 3
    then ordered_valid_chul_nos p valid >>= (λ ordered. ok (fill_from_card ordered r))
    else ok r

unfoldable pub guard_report : Platform → Option (List Value) → Fields → Result Raised GuardResult
unfolding base_candidates first_actions repair guard_result
guard_report p valid report =
    let codes = sequence_of (get_field report "issue_codes") in
    do
      base ← base_candidates p (sequence_of (get_field report "normalized_candidates"))
      repaired ←
          repair p valid codes
            (record { final_candidates = base; repair_actions = first_actions report codes })
      ok (guard_result (obj report) codes repaired.final_candidates repaired.repair_actions)

abbrev pub guard_value : Platform → Option (List Value) → Value → Result Raised GuardResult
unfolding guard_report
guard_value p valid (obj report) = guard_report p valid report
guard_value p valid _ = guard_report p valid end

abbrev text_value : Option String → Value
text_value none = null
text_value (some s) = str s

abbrev score_value_of : Option Float → Value
score_value_of none = null
score_value_of (some x) = float x

FinalCandidate_to_dict : FinalCandidate → Value
FinalCandidate_to_dict c = obj (
    field "rank" (int (pos c.rank)) (
      field "chulNo" (int (pos c.chul_no)) (
        field "score" (score_value_of c.score) (
          field "hrName" (text_value c.hr_name) (
            field "source_field" (str c.source_field)
              (field "raw_index" (int (pos c.raw_index)) end))))))

abbrev chul_no_field : Option ℕ → Fields
chul_no_field none = end
chul_no_field (some n) = field "chulNo" (int (pos n)) end

RepairAction_to_dict : RepairAction → Value
RepairAction_to_dict a =
    obj (field "code" (str a.code) (field "message" (str a.message) (chul_no_field a.chul_no)))

-- The dicts of the report are copied as they are.
unfoldable pub GuardResult_to_dict : GuardResult → Value
unfolding FinalCandidate_to_dict RepairAction_to_dict
GuardResult_to_dict g = obj (
    field "accepted" (bool g.accepted) (
      field "repaired" (bool g.repaired) (
        field "repairable" (bool g.repairable) (
          field "final_predicted"
            (arr (items_of (map (λ c. int (pos (number_of c))) g.final_candidates)))
            (field "final_selected_horses"
              (arr (
                items_of (
                  map (λ c. obj (field "chulNo" (int (pos (number_of c))) end))
                    g.final_candidates)))
              (field "final_candidates"
                (arr (items_of (map FinalCandidate_to_dict g.final_candidates)))
                (field "blocking_issue_codes" (arr (items_of g.blocking_issue_codes)) (
                  field "repair_action_codes"
                    (arr (items_of (map (λ (a : RepairAction). str a.code) g.repair_actions)))
                    (field "repair_actions"
                      (arr (items_of (map RepairAction_to_dict g.repair_actions)))
                      (field "validation_report" g.validation_report end))))))))))

unfoldable pub guard_prediction_output :
    Platform → Fields → Option Fields → Option (List Value) → Result Raised Value
unfolding guard_report
guard_prediction_output p payload normalized valid = do
  report ← postprocess_prediction_candidates p payload normalized valid
  result ← guard_value p valid report
  ok (GuardResult_to_dict result)
