-- ===== src/Predictions/Source.antt =====
-- prediction_postprocessing.py: which list of the payload holds the candidates, and the issues that
-- are reported.
use kra_analysis.Prelude.{ℕ, String, List, [], ◌∷◌, ◌++◌, Option, none, some}
use kra_analysis.Prelude.Text.{◌+++◌}
use kra_analysis.Prelude.Value.{Value, Fields, null, obj, str, int, pos, end, field}
use kra_analysis.Prelude.Objects.{get_field}
use kra_analysis.Predictions.Conversions.{as_sequence}

pub record PredictionValidationIssue : Type 0 where
  pub code : String
  pub message : String
  pub source_field : Option String
  pub candidate_index : Option ℕ
  pub raw_value : Value

abbrev pub Issue : Type 0
Issue = PredictionValidationIssue

abbrev pub text_or_null : Option String → Value
text_or_null none = null
text_or_null (some s) = str s

abbrev index_or_null : Option ℕ → Value
index_or_null none = null
index_or_null (some i) = int (pos i)

unfoldable pub Issue_to_dict : Issue → Value
Issue_to_dict issue = obj (
    field "code" (str issue.code) (
      field "message" (str issue.message) (
        field "source_field" (text_or_null issue.source_field) (
          field "candidate_index" (index_or_null issue.candidate_index)
            (field "raw_value" issue.raw_value end)))))

pub record RawCandidateSource : Type 0 where
  pub source_field : Option String
  pub raw_items : List Value
  pub issues : List Issue

invalid_source : String → Value → Issue
invalid_source name value = record {
  code = "invalid_candidate_source_type";
  message = name +++ " 필드는 리스트 형태여야 한다.";
  source_field = some name;
  candidate_index = none;
  raw_value = value;
}

-- The lists that are looked up last: `prefix` marks those of the normalized payload.
unfoldable pub named_or :
    String → Option (List Value) → Option (String × List Value) → Option (String × List Value)
named_or name none next = next
named_or name (some items) next = some (name, items)

unfoldable pub first_list : String → List String → Fields → Option (String × List Value)
unfolding named_or
first_list prefix [] f = none
first_list prefix (k ∷ ks) f =
    named_or (prefix +++ k) (as_sequence (get_field f k)) (first_list prefix ks f)

unfoldable pub found_or :
    Option (String × List Value) → List Issue → RawCandidateSource → RawCandidateSource
found_or none issues other = other
found_or (some (name, items)) issues other = record {
  source_field = some name;
  raw_items = items;
  issues = issues;
}

abbrev pub normalized_fields : List String
normalized_fields = "selected_horses" ∷ "primary_scores" ∷ "predictions" ∷ []

abbrev pub payload_fields : List String
payload_fields = "primary_scores" ∷ "predictions" ∷ []

unfoldable pub normalized_list : Option Fields → Option (String × List Value)
unfolding first_list
normalized_list none = none
normalized_list (some f) = first_list "normalized." normalized_fields f

-- After the fields of the prediction itself, with the issues that they left.
unfoldable pub other_source : Fields → Option Fields → List Issue → RawCandidateSource
unfolding found_or normalized_list first_list
other_source payload normalized issues = found_or (normalized_list normalized) issues (
    found_or (first_list "" payload_fields payload) issues
      (record { source_field = none; raw_items = []; issues = issues }))

-- The loop over the fields of the prediction: a null is passed over, the first list is taken.
unfoldable pub choose_source :
    Fields → Option Fields → List (String × Value) → List Issue → RawCandidateSource
unfolding other_source invalid_source
choose_source payload normalized [] issues = other_source payload normalized issues
choose_source payload normalized ((name, null) ∷ rest) issues =
    choose_source payload normalized rest issues
choose_source payload normalized ((name, value) ∷ rest) issues =
    let skipped =
      choose_source payload normalized rest (issues ++ invalid_source name value ∷ []) in
    elim (as_sequence value) [
      | none ↦ skipped
      | some items ↦ record { source_field = some name; raw_items = items; issues = issues }
    ]

unfoldable pub trifecta_primary : Value → List (String × Value)
trifecta_primary (obj picks) = ("trifecta_picks.primary", get_field picks "primary") ∷ []
trifecta_primary _ = []

abbrev pub prediction_fields : Fields → List (String × Value)
prediction_fields payload =
    ("selected_horses", get_field payload "selected_horses")
    ∷ ("predicted", get_field payload "predicted")
    ∷ ("prediction", get_field payload "prediction")
    ∷ trifecta_primary (get_field payload "trifecta_picks")

unfoldable pub select_raw_candidate_source : Fields → Option Fields → RawCandidateSource
unfolding choose_source trifecta_primary
select_raw_candidate_source payload normalized =
    choose_source payload normalized (prediction_fields payload) []
