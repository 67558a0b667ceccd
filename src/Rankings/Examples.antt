-- ===== src/Rankings/Examples.antt =====
-- A race of three horses, and the theorems at it.
use kra_analysis.Prelude.{ℕ, List, [], ◌∷◌, Option, none, some, false, map, All, ◌≡◌, refl, inr}
use mathlib.Core.List.{Perm}
use kra_analysis.Prelude.Result.{ok, err}
use kra_analysis.Prelude.Value.{Fields, int, end, field, ℤ, pos}
use kra_analysis.Prelude.Integers.{tuple_lt, tuple_lt-ne}
use kra_analysis.Prelude.Sorting.{IsSorted, sort_by}
use kra_analysis.Prelude.Reordering.{swap}
use kra_analysis.Rankings.Values.{
  Arithmetic, Reads, safe_float, safe_int, or_empty, text_or_empty, total_place_rate,
  year_place_rate, bool_score,
}
use kra_analysis.Rankings.Key.{ModelScores, extract_rule_values, build_sort_key}
use kra_analysis.Rankings.Ranking.{RankedEntry, Prepared, prepare, rank_race_entries}
use kra_analysis.Rankings.Order.{
  Extracts, horse_of, rank_of, entry_before, rank_race_entries-IsSorted,
}
use kra_analysis.Rankings.Determinism.{KeysDiffer, rank_race_entries-Reordered}

-- Integers stand for themselves, and no text is a number.
abbrev whole : Arithmetic
whole = record {
  platform = record {
    is_space = λ c. false;
    is_digit = λ c. false;
    decimal = λ c. none;
    float_of_text = λ s. none;
    float_of_int = λ z. some z;
    text_of = λ v. "";
  };
  int_of_text = λ s. none;
  divide = λ x y. some x;
}

horse : ℕ → ℕ → Fields
horse n rating = field "chulNo" (int (pos n)) (field "rating" (int (pos rating)) end)

abbrev race : List Fields
race = horse 1 40 ∷ horse 2 70 ∷ horse 3 40 ∷ []

abbrev other_order : List Fields
other_order = horse 2 70 ∷ horse 1 40 ∷ horse 3 40 ∷ []

abbrev scores : ModelScores
scores = some ((pos 3, int (pos 9)) ∷ [])

abbrev numbers : Reads (List RankedEntry) → List (Option ℤ)
numbers (ok entries) = map (λ (e : RankedEntry). e.chul_no) entries
numbers (err e) = []

runs :
    numbers (rank_race_entries whole race scores) ≡ some (pos 3) ∷ some (pos 2) ∷ some (pos 1) ∷ []
unfolding rank_race_entries prepare extract_rule_values build_sort_key safe_float safe_int or_empty
    text_or_empty total_place_rate year_place_rate bool_score horse tuple_lt sort_by
runs = refl

abbrev prepared_of : Reads (List Prepared) → List Prepared
prepared_of (ok xs) = xs
prepared_of (err e) = []

extracts : All (Extracts whole scores) race
unfolding rank_race_entries prepare extract_rule_values build_sort_key safe_float safe_int or_empty
    text_or_empty total_place_rate year_place_rate bool_score horse tuple_lt sort_by
extracts = ((_, refl), ((_, refl), ((_, refl), tt)))

rank_race_entries-IsSorted_example :
    (entries : List RankedEntry) × (rank_race_entries whole race scores ≡ ok entries)
    × Perm (map horse_of entries) race
    × (map rank_of entries ≡ 1 ∷ 2 ∷ 3 ∷ [])
    × IsSorted entry_before entries
    × All (λ e. extract_rule_values whole scores (horse_of e) ≡ ok e.rule_values) entries
rank_race_entries-IsSorted_example = rank_race_entries-IsSorted whole scores race extracts

prepares : prepare whole scores race ≡ ok (prepared_of (prepare whole scores race))
unfolding rank_race_entries prepare extract_rule_values build_sort_key safe_float safe_int or_empty
    text_or_empty total_place_rate year_place_rate bool_score horse tuple_lt sort_by
prepares = refl

keys : KeysDiffer (prepared_of (prepare whole scores race))
unfolding rank_race_entries prepare extract_rule_values build_sort_key safe_float safe_int or_empty
    text_or_empty total_place_rate year_place_rate bool_score horse tuple_lt sort_by
keys = (
  (tuple_lt-ne _ _ (inr refl), (tuple_lt-ne _ _ (inr refl), tt)),
  ((tuple_lt-ne _ _ (inr refl), tt), (tt, tt)),
)

rank_race_entries-Reordered_example :
    rank_race_entries whole other_order scores ≡ rank_race_entries whole race scores
rank_race_entries-Reordered_example =
    rank_race_entries-Reordered whole scores race other_order
      (prepared_of (prepare whole scores race)) (swap (horse 1 40) (horse 2 70) (horse 3 40 ∷ []))
      prepares keys
