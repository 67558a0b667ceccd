-- ===== src/Predictions/Cards.antt =====
-- The race card is read without an exception where the values convert.
use kra_analysis.Prelude.{List, [], ◌∷◌, Option, none, some, All}
use kra_analysis.Prelude.Result.{Result, ok}
use kra_analysis.Prelude.Value.{Value, Fields}
use kra_analysis.Prelude.Objects.{get_field}
use kra_analysis.Predictions.Conversions.{
  Platform, Raised, as_sequence, coerce_positive_chul_no, extract_candidate_fields,
}
use kra_analysis.Predictions.Lookups.{
  Card, or_card, positive_numbers, item_numbers, listed_card, container_card, optional_card,
  extract_valid_chul_nos,
}
use kra_analysis.Predictions.Converts.{
  Converts, ConvertsFields, as_sequence-Converts, when_sequence-Outcome, coerce-Outcome,
  extract-Outcome, get_field-Converts,
}
use kra_analysis.Predictions.Looking.{Returns, Returns-bind, OptionalConverts}

module _ (p : Platform) (R : Raised → Type 0) where
  positive_numbers-Returns :
      (vs : List Value) → All (Converts p R) vs → Returns p R (positive_numbers p vs)
  unfolding positive_numbers
  positive_numbers-Returns [] h = tt
  positive_numbers-Returns (v ∷ vs) h =
      Returns-bind p R (coerce_positive_chul_no p v) _ (coerce-Outcome p R v h.0) (λ n _.
        Returns-bind p R (positive_numbers p vs) _ (positive_numbers-Returns vs h.1) (λ ns _. tt))

  item_numbers-Returns :
      (items : List Value) → All (Converts p R) items → Returns p R (item_numbers p items)
  unfolding item_numbers
  item_numbers-Returns [] h = tt
  item_numbers-Returns (item ∷ items) h =
      Returns-bind p R (extract_candidate_fields p item) _ (extract-Outcome p R item h.0) (λ e he.
        Returns-bind p R (coerce_positive_chul_no p e.0) _ (coerce-Outcome p R e.0 he) (λ n _.
          Returns-bind p R (item_numbers p items) _ (item_numbers-Returns items h.1) (λ ns _. tt)))

  listed_card-Returns : (v : Value) → Converts p R v → Returns p R (listed_card p v)
  unfolding listed_card
  listed_card-Returns v h =
      when_sequence-Outcome p R (λ _. Unit {0}) (as_sequence v) (ok none) _
        (as_sequence-Converts p R v h) tt
        (λ l hl. Returns-bind p R (item_numbers p l) _ (item_numbers-Returns l hl) (λ ns _. tt))

  or_card-Returns :
      (card : Card) (next : Result Raised Card) → Returns p R next → Returns p R (or_card card next)
  or_card-Returns none next h = h
  or_card-Returns (some set) next h = tt

  container_card-Returns : (f : Fields) → ConvertsFields p R f → Returns p R (container_card p f)
  unfolding container_card
  container_card-Returns f h =
      Returns-bind p R (listed_card p (get_field f "horses")) _
        (listed_card-Returns _ (get_field-Converts p R f "horses" h))
        (λ card _.
          or_card-Returns card _ (listed_card-Returns _ (get_field-Converts p R f "entries" h)))

  optional_card-Returns :
      (f : Option Fields) → OptionalConverts p R f → Returns p R (optional_card p f)
  unfolding optional_card
  optional_card-Returns none h = tt
  optional_card-Returns (some f) h = container_card-Returns f h

  abbrev pub NumbersConvert : Option (List Value) → Type 0
  NumbersConvert none = Unit
  NumbersConvert (some values) = All (Converts p R) values

  pub extract_valid_chul_nos-Returns :
      (payload : Fields) (normalized : Option Fields) (valid : Option (List Value))
      → ConvertsFields p R payload
      → OptionalConverts p R normalized
      → NumbersConvert valid
      → Returns p R (extract_valid_chul_nos p payload normalized valid)
  unfolding extract_valid_chul_nos
  extract_valid_chul_nos-Returns payload normalized (some values) h k v =
      Returns-bind p R (positive_numbers p values) _ (positive_numbers-Returns values v)
        (λ ns _. tt)
  extract_valid_chul_nos-Returns payload normalized none h k v =
      Returns-bind p R (container_card p payload) _ (container_card-Returns payload h)
        (λ card _. or_card-Returns card _ (optional_card-Returns normalized k))
