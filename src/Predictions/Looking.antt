-- ===== src/Predictions/Looking.antt =====
-- The scores and the race card are read without an exception where the values convert.
use kra_analysis.Prelude.{String, List, [], ◌∷◌, Option, none, some, All}
use kra_analysis.Prelude.Result.{Result, ok, ◌>>=◌, Outcome, Outcome-bind}
use kra_analysis.Prelude.Value.{Value, Fields, null, obj, arr, str, float, int, bool, ℤ, finite}
use kra_analysis.Prelude.Objects.{find_field, get_field, entries}
use kra_analysis.Predictions.Conversions.{
  Platform, Raised, as_sequence, coerce_positive_chul_no, coerce_score, extract_candidate_fields,
}
use kra_analysis.Predictions.Lookups.{
  Scores, register_score, score_found, register_key, register_extracted, register_item,
  register_items, register_sequence, register_pairs, register_mapping, register_container,
  register_optional, build_score_lookup, prediction_score_keys,
}
use kra_analysis.Predictions.Converts.{
  IsPositive, Converts, ConvertsFields, ConvertsText, FoundConverts, found-Converts,
  as_sequence-Converts, when_sequence-Outcome, coerce-Outcome, score-Outcome, extract-Outcome,
  get_field-Converts, entries-Converts,
}

module _ (p : Platform) (R : Raised → Type 0) where
  abbrev pub Returns : {A : Type 0} → Result Raised A → Type 0
  Returns r = Outcome R (λ _. Unit {0}) r

  pub Returns-bind :
      {A B : Type 0} {P : A → Type 0} (m : Result Raised A) (f : A → Result Raised B)
      → Outcome R P m
      → ((a : A) → P a → Returns (f a))
      → Returns (m >>= f)
  Returns-bind m f h k = Outcome-bind R (λ _. Unit {0}) m f h k

  register_score-Returns :
      (scores : Scores) (number score : Value)
      → Outcome R IsPositive (coerce_positive_chul_no p number)
      → Converts p R score
      → Returns (register_score p scores number score)
  unfolding register_score
  register_score-Returns scores number score hn hs =
      Returns-bind (coerce_positive_chul_no p number) _ hn
        (λ n _. Returns-bind (coerce_score p score) _ (score-Outcome p R score hs) (λ z _. tt))

  score_found-Returns :
      (scores : Scores) (number : Value) (v : Option Value) (next : Result Raised Scores)
      → Converts p R number
      → FoundConverts p R v
      → Returns next
      → Returns (score_found p scores number v next)
  unfolding score_found
  score_found-Returns scores number none next hn hv k = k
  score_found-Returns scores number (some v) next hn hv k =
      register_score-Returns scores number v (coerce-Outcome p R number hn) hv

  register_key-Returns :
      (keys : List String) (scores : Scores) (number : Value) (f : Fields)
      → Converts p R number
      → ConvertsFields p R f
      → Returns (register_key p keys scores number f)
  unfolding register_key
  register_key-Returns [] scores number f hn hf = tt
  register_key-Returns (k ∷ ks) scores number f hn hf =
      score_found-Returns scores number (find_field f k) _ hn (found-Converts p R f k hf)
        (register_key-Returns ks scores number f hn hf)

  register_extracted-Returns :
      (keys : List String) (scores : Scores) (f : Fields) (number : Value) (z : Option ℤ)
      → Converts p R number
      → ConvertsFields p R f
      → Returns (register_extracted p keys scores f number z)
  unfolding register_extracted Converts
  register_extracted-Returns keys scores f number none hn hf =
      register_key-Returns keys scores number f hn hf
  register_extracted-Returns keys scores f number (some z) hn hf =
      register_score-Returns scores number (float (finite z)) (coerce-Outcome p R number hn) tt

  register_item-Returns :
      (keys : List String) (scores : Scores) (item : Value)
      → Converts p R item
      → Returns (register_item p keys scores item)
  unfolding register_item Converts
  register_item-Returns keys scores (obj f) h =
      Returns-bind (extract_candidate_fields p (obj f)) _ (extract-Outcome p R (obj f) h)
        (λ e he. register_extracted-Returns keys scores f e.0 e.2 he h)
  register_item-Returns keys scores null h = tt
  register_item-Returns keys scores (arr xs) h = tt
  register_item-Returns keys scores (str s) h = tt
  register_item-Returns keys scores (float x) h = tt
  register_item-Returns keys scores (int z) h = tt
  register_item-Returns keys scores (bool b) h = tt

  register_items-Returns :
      (keys : List String) (scores : Scores) (items : List Value)
      → All (Converts p R) items
      → Returns (register_items p keys scores items)
  unfolding register_items
  register_items-Returns keys scores [] h = tt
  register_items-Returns keys scores (item ∷ items) h =
      Returns-bind (register_item p keys scores item) _ (register_item-Returns keys scores item h.0)
        (λ s _. register_items-Returns keys s items h.1)

  register_sequence-Returns :
      (keys : List String) (scores : Scores) (v : Value)
      → Converts p R v
      → Returns (register_sequence p keys scores v)
  unfolding register_sequence
  register_sequence-Returns keys scores v h =
      when_sequence-Outcome p R (λ _. Unit {0}) (as_sequence v) (ok scores) _
        (as_sequence-Converts p R v h) tt (λ l hl. register_items-Returns keys scores l hl)

  register_pairs-Returns :
      (scores : Scores) (pairs : List (String × Value))
      → All (λ e. ConvertsText p R e.0 × Converts p R e.1) pairs
      → Returns (register_pairs p scores pairs)
  unfolding register_pairs
  register_pairs-Returns scores [] h = tt
  register_pairs-Returns scores ((k, v) ∷ pairs) h =
      Returns-bind (register_score p scores (str k) v) _
        (register_score-Returns scores (str k) v h.0.0 h.0.1)
        (λ s _. register_pairs-Returns s pairs h.1)

  register_mapping-Returns :
      (scores : Scores) (v : Value) → Converts p R v → Returns (register_mapping p scores v)
  unfolding register_mapping Converts
  register_mapping-Returns scores (obj f) h =
      register_pairs-Returns scores (entries f) (entries-Converts p R f h)
  register_mapping-Returns scores null h = tt
  register_mapping-Returns scores (arr xs) h = tt
  register_mapping-Returns scores (str s) h = tt
  register_mapping-Returns scores (float x) h = tt
  register_mapping-Returns scores (int z) h = tt
  register_mapping-Returns scores (bool b) h = tt

  register_container-Returns :
      (scores : Scores) (f : Fields)
      → ConvertsFields p R f
      → Returns (register_container p scores f)
  unfolding register_container
  register_container-Returns scores f h =
      let read = λ (k : String). get_field-Converts p R f k h in
      Returns-bind (register_sequence p prediction_score_keys scores (get_field f "predictions")) _
        (register_sequence-Returns _ scores _ (read "predictions"))
        (λ s1 _.
          Returns-bind (register_sequence p ("score" ∷ []) s1 (get_field f "primary_scores")) _
            (register_sequence-Returns _ s1 _ (read "primary_scores"))
            (λ s2 _.
              Returns-bind
                (register_sequence p ("primary_score" ∷ []) s2 (get_field f "fallback_ranking")) _
                (register_sequence-Returns _ s2 _ (read "fallback_ranking"))
                (λ s3 _. register_mapping-Returns s3 _ (read "model_scores"))))

  -- The payload that may be missing.
  abbrev pub OptionalConverts : Option Fields → Type 0
  OptionalConverts none = Unit
  OptionalConverts (some f) = ConvertsFields p R f

  register_optional-Returns :
      (f : Option Fields) (scores : Scores)
      → OptionalConverts f
      → Returns (register_optional p f scores)
  unfolding register_optional
  register_optional-Returns none scores h = tt
  register_optional-Returns (some f) scores h = register_container-Returns scores f h

  pub build_score_lookup-Returns :
      (payload : Fields) (normalized : Option Fields)
      → ConvertsFields p R payload
      → OptionalConverts normalized
      → Returns (build_score_lookup p payload normalized)
  unfolding build_score_lookup
  build_score_lookup-Returns payload normalized h k =
      Returns-bind (register_container p [] payload) _ (register_container-Returns [] payload h)
        (λ s _. register_optional-Returns normalized s k)
