-- ===== src/Predictions/Lookups.antt =====
-- prediction_postprocessing.py: the scores that the payload has for each horse, and the race card.
use kra_analysis.Prelude.{ℕ, String, List, [], ◌∷◌, Option, none, some, Bool, true, if◌then◌else◌}
use kra_analysis.Prelude.Result.{Result, ok, ◌>>=◌}
use kra_analysis.Prelude.Value.{Value, Fields, obj, str, float, ℤ, finite}
use kra_analysis.Prelude.Objects.{find_field, get_field, entries}
use kra_analysis.Prelude.Integers.{ltz}
use kra_analysis.Prelude.Table.{Table, find, store}
use kra_analysis.Predictions.Conversions.{
  Platform, Raised, as_sequence, when_sequence, coerce_positive_chul_no, coerce_score,
  extract_candidate_fields,
}

abbrev pub Scores : Type 0
Scores = Table ℤ

better : Option ℤ → ℤ → Bool
better none score = true
better (some existing) score = ltz existing score

unfoldable pub raise_score : Scores → Option ℕ → Option ℤ → Scores
unfolding better find store
raise_score scores none score = scores
raise_score scores (some n) none = scores
raise_score scores (some n) (some z) = if better (find scores n) z then store scores n z else scores

unfoldable pub register_score : Platform → Scores → Value → Value → Result Raised Scores
unfolding raise_score
register_score p scores raw_chul_no raw_score = do
  number ← coerce_positive_chul_no p raw_chul_no
  score ← coerce_score p raw_score
  ok (raise_score scores number score)

unfoldable pub score_found :
    Platform → Scores → Value → Option Value → Result Raised Scores → Result Raised Scores
score_found p scores number none next = next
score_found p scores number (some v) next = register_score p scores number v

-- The first of the keys that the item has, if any, gives the score.
unfoldable pub register_key :
    Platform → List String → Scores → Value → Fields → Result Raised Scores
unfolding score_found
register_key p [] scores number f = ok scores
register_key p (k ∷ ks) scores number f =
    score_found p scores number (find_field f k) (register_key p ks scores number f)

unfoldable pub register_extracted :
    Platform → List String → Scores → Fields → Value → Option ℤ → Result Raised Scores
unfolding register_key
register_extracted p keys scores f number none = register_key p keys scores number f
register_extracted p keys scores f number (some z) =
    register_score p scores number (float (finite z))

unfoldable pub register_item : Platform → List String → Scores → Value → Result Raised Scores
unfolding register_extracted
register_item p keys scores (obj f) =
    extract_candidate_fields p (obj f) >>= (λ e. register_extracted p keys scores f e.0 e.2)
register_item p keys scores _ = ok scores

unfoldable pub register_items : Platform → List String → Scores → List Value → Result Raised Scores
unfolding register_item
register_items p keys scores [] = ok scores
register_items p keys scores (item ∷ items) =
    register_item p keys scores item >>= (λ scores'. register_items p keys scores' items)

unfoldable pub register_sequence : Platform → List String → Scores → Value → Result Raised Scores
unfolding register_items
register_sequence p keys scores v =
    when_sequence (as_sequence v) (ok scores) (λ items. register_items p keys scores items)

unfoldable pub register_pairs : Platform → Scores → List (String × Value) → Result Raised Scores
register_pairs p scores [] = ok scores
register_pairs p scores ((k, v) ∷ pairs) =
    register_score p scores (str k) v >>= (λ scores'. register_pairs p scores' pairs)

unfoldable pub register_mapping : Platform → Scores → Value → Result Raised Scores
unfolding register_pairs
register_mapping p scores (obj f) = register_pairs p scores (entries f)
register_mapping p scores _ = ok scores

abbrev pub prediction_score_keys : List String
prediction_score_keys =
    "primary_score" ∷ "model_score" ∷ "win_probability" ∷ "place_probability" ∷ "edge" ∷ []

unfoldable pub register_container : Platform → Scores → Fields → Result Raised Scores
unfolding register_mapping
register_container p s0 f = do
  s1 ← register_sequence p prediction_score_keys s0 (get_field f "predictions")
  s2 ← register_sequence p ("score" ∷ []) s1 (get_field f "primary_scores")
  s3 ← register_sequence p ("primary_score" ∷ []) s2 (get_field f "fallback_ranking")
  register_mapping p s3 (get_field f "model_scores")

unfoldable pub register_optional : Platform → Option Fields → Scores → Result Raised Scores
unfolding register_container
register_optional p none scores = ok scores
register_optional p (some f) scores = register_container p scores f

unfoldable pub build_score_lookup : Platform → Fields → Option Fields → Result Raised Scores
unfolding register_container register_optional
build_score_lookup p payload normalized =
    register_container p [] payload >>= register_optional p normalized

abbrev pub add_number : Option ℕ → List ℕ → List ℕ
add_number none set = set
add_number (some n) set = n ∷ set

-- The positive horse numbers of the values. A set is a list: only membership and emptiness are read.
unfoldable pub positive_numbers : Platform → List Value → Result Raised (List ℕ)
positive_numbers p [] = ok []
positive_numbers p (v ∷ vs) = do
  number ← coerce_positive_chul_no p v
  rest ← positive_numbers p vs
  ok (add_number number rest)

unfoldable pub item_numbers : Platform → List Value → Result Raised (List ℕ)
item_numbers p [] = ok []
item_numbers p (item ∷ items) = do
  extracted ← extract_candidate_fields p item
  number ← coerce_positive_chul_no p extracted.0
  rest ← item_numbers p items
  ok (add_number number rest)

abbrev pub Card : Type 0
Card = Option (List ℕ)

-- valid or None
abbrev pub or_none : List ℕ → Card
or_none [] = none
or_none (n ∷ ns) = some (n ∷ ns)

abbrev pub or_card : Card → Result Raised Card → Result Raised Card
or_card none next = next
or_card (some set) next = ok (some set)

unfoldable pub listed_card : Platform → Value → Result Raised Card
unfolding item_numbers
listed_card p v =
    when_sequence (as_sequence v) (ok none)
      (λ items. item_numbers p items >>= (λ numbers. ok (or_none numbers)))

unfoldable pub container_card : Platform → Fields → Result Raised Card
unfolding listed_card
container_card p f =
    listed_card p (get_field f "horses")
    >>= (λ card. or_card card (listed_card p (get_field f "entries")))

unfoldable pub optional_card : Platform → Option Fields → Result Raised Card
unfolding container_card
optional_card p none = ok none
optional_card p (some f) = container_card p f

-- The numbers that are given, else those of the horses or the entries of a payload.
unfoldable pub extract_valid_chul_nos :
    Platform → Fields → Option Fields → Option (List Value) → Result Raised Card
unfolding positive_numbers container_card optional_card
extract_valid_chul_nos p payload normalized (some values) =
    positive_numbers p values >>= (λ numbers. ok (or_none numbers))
extract_valid_chul_nos p payload normalized none =
    container_card p payload >>= (λ card. or_card card (optional_card p normalized))
