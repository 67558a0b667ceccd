-- ===== src/Rankings/Ranking.antt =====
-- rank_race_entries (packages/scripts/shared/alternative_ranking.py).
use kra_analysis.Prelude.{ℕ, suc, String, List, [], ◌∷◌, Option, Bool}
use kra_analysis.Prelude.Result.{ok, ◌>>=◌}
use kra_analysis.Prelude.Value.{Fields, ℤ}
use kra_analysis.Prelude.Integers.{tuple_lt}
use kra_analysis.Prelude.Objects.{get_field}
use kra_analysis.Prelude.Sorting.{sort_by}
use kra_analysis.Rankings.Values.{Arithmetic, Reads, text_or_empty}
use kra_analysis.Rankings.Key.{RuleValues, ModelScores, extract_rule_values, build_sort_key}

pub record RankedEntry : Type 0 where
  pub rank : ℕ
  pub horse : Fields
  pub chul_no : Option ℤ
  pub hr_name : String
  pub model_score : Option ℤ
  pub rule_values : RuleValues

-- A horse with its sort key.
pub record Prepared : Type 0 where
  pub key : List ℤ
  pub horse : Fields
  pub rule_values : RuleValues

unfoldable pub prepare : Arithmetic → ModelScores → List Fields → Reads (List Prepared)
unfolding build_sort_key
prepare a scores [] = ok []
prepare a scores (horse ∷ horses) = do
  values ← extract_rule_values a scores horse
  rest ← prepare a scores horses
  ok (record { key = build_sort_key values; horse = horse; rule_values = values } ∷ rest)

abbrev pub key_before : Prepared → Prepared → Bool
key_before x y = tuple_lt x.key y.key

abbrev pub entry : Arithmetic → ℕ → Prepared → RankedEntry
entry a i x = record {
  rank = i;
  horse = x.horse;
  chul_no = x.rule_values.chul_no;
  hr_name = text_or_empty a (get_field x.horse "hrName");
  model_score = x.rule_values.model_score;
  rule_values = x.rule_values;
}

abbrev pub entries_from : Arithmetic → ℕ → List Prepared → List RankedEntry
entries_from a i [] = []
entries_from a i (x ∷ xs) = entry a i x ∷ entries_from a (suc i) xs

unfoldable pub rank_race_entries : Arithmetic → List Fields → ModelScores → Reads (List RankedEntry)
unfolding prepare sort_by
rank_race_entries a horses scores =
    prepare a scores horses >>= (λ prepared. ok (entries_from a 1 (sort_by key_before prepared)))
