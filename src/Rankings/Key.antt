-- ===== src/Rankings/Key.antt =====
-- alternative_ranking.py: the rule values of a horse and the key that it is sorted by.
use kra_analysis.Prelude.{
  ◌^◌, String, List, [], ◌∷◌, ◌++◌, map, Option, none, some, Bool, true, false, if◌then◌else◌,
  str_eq,
}
use kra_analysis.Prelude.Result.{ok, ◌>>=◌}
use kra_analysis.Prelude.Value.{Value, Fields, ℤ, pos}
use kra_analysis.Prelude.Integers.{negate, ltz}
use kra_analysis.Prelude.Objects.{get_field}
use kra_analysis.Predictions.Conversions.{codes, one_unit}
use kra_analysis.Rankings.Values.{
  Arithmetic, Reads, safe_float, safe_int, or_empty, text_or_empty, total_place_rate,
  year_place_rate, bool_score,
}

-- The dict of `_extract_rule_values`.
pub record RuleValues : Type 0 where
  pub model_score : Option ℤ
  pub horse_top3_skill : Option ℤ
  pub year_place_rate : Option ℤ
  pub total_place_rate : Option ℤ
  pub jk_skill : Option ℤ
  pub tr_skill : Option ℤ
  pub rating : Option ℤ
  pub training_score : Option ℤ
  pub recent_training : Option ℤ
  pub age_prime : Option ℤ
  pub allowance_flag : ℤ
  pub wg_budam : Option ℤ
  pub rest_days : Option ℤ
  pub chul_no : Option ℤ
  pub hr_no : String

-- The scores of the model, by horse number.
abbrev pub ModelScores : Type 0
ModelScores = Option (List (ℤ × Value))

abbrev same_ℤ : ℤ → ℤ → Bool
same_ℤ x y = if ltz x y then false else if ltz y x then false else true

score_of : Arithmetic → List (ℤ × Value) → ℤ → Reads (Option ℤ)
score_of a [] n = ok none
score_of a ((k, v) ∷ scores) n =
    let rest = score_of a scores n in if same_ℤ k n then safe_float a v else rest

model_score_of : Arithmetic → ModelScores → Option ℤ → Reads (Option ℤ)
unfolding score_of
model_score_of a none n = ok none
model_score_of a (some scores) none = ok none
model_score_of a (some scores) (some n) = score_of a scores n

unfoldable pub extract_rule_values : Arithmetic → ModelScores → Fields → Reads RuleValues
unfolding model_score_of one_unit
extract_rule_values a scores horse = do
  computed ← or_empty (get_field horse "computed_features")
  number ← safe_int a (get_field horse "chulNo")
  score ← model_score_of a scores number
  skill ← safe_float a (get_field computed "horse_top3_skill")
  year ← year_place_rate a horse
  total ← total_place_rate a horse
  jockey ← safe_float a (get_field computed "jk_skill")
  trainer ← safe_float a (get_field computed "tr_skill")
  rated ← safe_float a (get_field horse "rating")
  trained ← safe_float a (get_field computed "training_score")
  weight ← safe_float a (get_field horse "wgBudam")
  rested ← safe_float a (get_field computed "rest_days")
  ok (record {
    model_score = score;
    horse_top3_skill = skill;
    year_place_rate = year;
    total_place_rate = total;
    jk_skill = jockey;
    tr_skill = trainer;
    rating = rated;
    training_score = trained;
    recent_training = bool_score (get_field computed "recent_training");
    age_prime = bool_score (get_field computed "age_prime");
    allowance_flag =
        if str_eq (text_or_empty a (get_field horse "wgBudamBigo")) "*"
        then pos one_unit
        else pos 0;
    wg_budam = weight;
    rest_days = rested;
    chul_no = number;
    hr_no = text_or_empty a (get_field horse "hrNo");
  })

abbrev score_component_desc : Option ℤ → List ℤ
score_component_desc none = pos 1 ∷ pos 0 ∷ []
score_component_desc (some z) = pos 0 ∷ negate z ∷ []

abbrev score_component_asc : Option ℤ → List ℤ
score_component_asc none = pos 1 ∷ pos 0 ∷ []
score_component_asc (some z) = pos 0 ∷ z ∷ []

abbrev or_last : Option ℤ → ℤ
or_last none = pos (10 ^ 9)
or_last (some n) = n

-- A text is compared as its code points. It stands last, so they may follow the numbers one by one.
unfoldable pub build_sort_key : RuleValues → List ℤ
build_sort_key v =
    score_component_desc v.model_score
    ++ (score_component_desc v.horse_top3_skill
        ++ (score_component_desc v.year_place_rate
            ++ (score_component_desc v.total_place_rate
                ++ (score_component_desc v.jk_skill
                    ++ (score_component_desc v.tr_skill
                        ++ (score_component_desc v.rating
                            ++ (score_component_desc v.training_score
                                ++ (score_component_desc v.recent_training
                                    ++ (score_component_desc v.age_prime
                                        ++ (score_component_desc (some v.allowance_flag)
                                            ++ (score_component_asc v.wg_budam
                                                ++ (score_component_asc v.rest_days
                                                    ++ (or_last v.chul_no
                                                        ∷ map pos (codes v.hr_no))))))))))))))
