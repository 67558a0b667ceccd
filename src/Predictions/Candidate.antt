-- ===== src/Predictions/Candidate.antt =====
-- prediction_postprocessing.py: a candidate, its place in the order, and two entries for one horse.
use kra_analysis.Prelude.{
  ℕ, suc, String, List, [], ◌∷◌, Option, none, some, Bool, if◌then◌else◌, take, str_eq,
}
use kra_analysis.Prelude.Value.{Value, null, obj, str, float, int, end, field, ℤ, pos, finite}
use kra_analysis.Prelude.Integers.{negate, tuple_lt}
use kra_analysis.Prelude.Sorting.{sort_by}
use kra_analysis.Prelude.Table.{Table, find, store}

-- The score counts units, as in Prelude/Value.
pub record NormalizedPredictionCandidate : Type 0 where
  pub rank : ℕ
  pub chul_no : ℕ
  pub score : Option ℤ
  pub hr_name : Option String
  pub source_field : String
  pub raw_index : ℕ

abbrev pub Candidate : Type 0
Candidate = NormalizedPredictionCandidate

abbrev pub text_or_null : Option String → Value
text_or_null none = null
text_or_null (some s) = str s

abbrev pub score_or_null : Option ℤ → Value
score_or_null none = null
score_or_null (some z) = float (finite z)

unfoldable pub Candidate_to_dict : Candidate → Value
Candidate_to_dict c = obj (
    field "rank" (int (pos c.rank)) (
      field "chulNo" (int (pos c.chul_no)) (
        field "score" (score_or_null c.score) (
          field "hrName" (text_or_null c.hr_name) (
            field "source_field" (str c.source_field)
              (field "raw_index" (int (pos c.raw_index)) end))))))

-- 0 if there is a score, else 1; and -(score or 0.0)
abbrev pub score_flag : Option ℤ → ℤ
score_flag none = pos 1
score_flag (some z) = pos 0

abbrev pub score_rank : Option ℤ → ℤ
score_rank none = pos 0
score_rank (some z) = negate z

unfoldable pub candidate_priority_key : Candidate → List ℤ
candidate_priority_key c =
    score_flag c.score ∷ score_rank c.score ∷ pos c.raw_index ∷ pos c.chul_no ∷ []

unfoldable pub before : Candidate → Candidate → Bool
before a b = tuple_lt (candidate_priority_key a) (candidate_priority_key b)

abbrev or_score : Option ℤ → Option ℤ → Option ℤ
or_score none other = other
or_score (some z) other = some z

-- preferred.hr_name or fallback.hr_name
abbrev or_name : Option String → Option String → Option String
or_name none other = other
or_name (some s) other = if str_eq s "" then other else some s

unfoldable pub merge_into : Candidate → Candidate → Candidate
merge_into preferred fallback = record {
  rank = 0;
  chul_no = preferred.chul_no;
  score = or_score preferred.score fallback.score;
  hr_name = or_name preferred.hr_name fallback.hr_name;
  source_field = preferred.source_field;
  raw_index = preferred.raw_index;
}

-- The earlier in the order is preferred; the one that was there first, if neither is earlier.
unfoldable pub merge_duplicate_candidate : Candidate → Candidate → Candidate
unfolding merge_into before
merge_duplicate_candidate existing incoming =
    if before incoming existing then merge_into incoming existing else merge_into existing incoming

-- candidates[chul_no] = candidate, merged with what is there
abbrev registered : Option Candidate → Candidate → Candidate
registered none candidate = candidate
registered (some existing) candidate = merge_duplicate_candidate existing candidate

unfoldable pub register : Table Candidate → Candidate → Table Candidate
unfolding find store merge_duplicate_candidate
register table c = store table c.chul_no (registered (find table c.chul_no) c)

abbrev pub with_rank : ℕ → Candidate → Candidate
with_rank i c = record {
  rank = i;
  chul_no = c.chul_no;
  score = c.score;
  hr_name = c.hr_name;
  source_field = c.source_field;
  raw_index = c.raw_index;
}

-- enumerate(candidates, start=i)
abbrev pub ranked_from : ℕ → List Candidate → List Candidate
ranked_from i [] = []
ranked_from i (c ∷ cs) = with_rank i c ∷ ranked_from (suc i) cs

abbrev limited : Option ℕ → List Candidate → List Candidate
limited none cs = cs
limited (some n) cs = take n cs

unfoldable pub rank_candidates : List Candidate → Option ℕ → List Candidate
unfolding before sort_by
rank_candidates candidates limit = ranked_from 1 (limited limit (sort_by before candidates))
