-- ===== src/Predictions/Sourced.antt =====
-- The items of the source stand in the payload, so they convert where its values do.
use kra_analysis.Prelude.{String, List, [], ◌∷◌, Option, none, some, All}
use kra_analysis.Prelude.Text.{◌+++◌}
use kra_analysis.Prelude.Value.{Value, Fields, null, obj, arr, str, float, int, bool}
use kra_analysis.Prelude.Objects.{get_field}
use kra_analysis.Predictions.Conversions.{Platform, Raised, as_sequence}
use kra_analysis.Predictions.Source.{
  Issue, RawCandidateSource, named_or, first_list, normalized_fields, payload_fields, found_or,
  normalized_list, other_source, choose_source, trifecta_primary, prediction_fields,
  select_raw_candidate_source,
}
use kra_analysis.Predictions.Converts.{
  Converts, ConvertsFields, SequenceConverts, as_sequence-Converts, get_field-Converts,
  elements-Converts,
}
use kra_analysis.Predictions.Looking.{OptionalConverts}

module _ (p : Platform) (R : Raised → Type 0) where
  abbrev NamedConverts : Option (String × List Value) → Type 0
  NamedConverts none = Unit
  NamedConverts (some (name, items)) = All (Converts p R) items

  abbrev SourceConverts : RawCandidateSource → Type 0
  SourceConverts s = All (Converts p R) s.raw_items

  named_or-Converts :
      (name : String) (items : Option (List Value)) (next : Option (String × List Value))
      → SequenceConverts p R items
      → NamedConverts next
      → NamedConverts (named_or name items next)
  unfolding named_or
  named_or-Converts name none next h k = k
  named_or-Converts name (some items) next h k = h

  first_list-Converts :
      (before : String) (ks : List String) (f : Fields)
      → ConvertsFields p R f
      → NamedConverts (first_list before ks f)
  unfolding first_list
  first_list-Converts before [] f h = tt
  first_list-Converts before (k ∷ ks) f h =
      named_or-Converts (before +++ k) (as_sequence (get_field f k)) (first_list before ks f)
        (as_sequence-Converts p R (get_field f k) (get_field-Converts p R f k h))
        (first_list-Converts before ks f h)

  found_or-Converts :
      (found : Option (String × List Value)) (issues : List Issue) (other : RawCandidateSource)
      → NamedConverts found
      → SourceConverts other
      → SourceConverts (found_or found issues other)
  unfolding found_or
  found_or-Converts none issues other h k = k
  found_or-Converts (some (name, items)) issues other h k = h

  normalized_list-Converts :
      (f : Option Fields) → OptionalConverts p R f → NamedConverts (normalized_list f)
  unfolding normalized_list
  normalized_list-Converts none h = tt
  normalized_list-Converts (some f) h = first_list-Converts "normalized." normalized_fields f h

  module _ (payload : Fields) (normalized : Option Fields) (h : ConvertsFields p R payload)
      (k : OptionalConverts p R normalized) where
    other_source-Converts :
        (issues : List Issue) → SourceConverts (other_source payload normalized issues)
    unfolding other_source
    other_source-Converts issues =
        found_or-Converts (normalized_list normalized) issues _
          (normalized_list-Converts normalized k)
          (found_or-Converts (first_list "" payload_fields payload) issues _
            (first_list-Converts "" payload_fields payload h) tt)

    choose_source-Converts :
        (fields : List (String × Value)) (issues : List Issue)
        → All (λ e. Converts p R e.1) fields
        → SourceConverts (choose_source payload normalized fields issues)
    unfolding choose_source as_sequence Converts
    choose_source-Converts [] issues c = other_source-Converts issues
    choose_source-Converts ((name, null) ∷ rest) issues c = choose_source-Converts rest issues c.1
    choose_source-Converts ((name, arr xs) ∷ rest) issues c = elements-Converts p R xs c.0
    choose_source-Converts ((name, obj f) ∷ rest) issues c = choose_source-Converts rest _ c.1
    choose_source-Converts ((name, str s) ∷ rest) issues c = choose_source-Converts rest _ c.1
    choose_source-Converts ((name, float x) ∷ rest) issues c = choose_source-Converts rest _ c.1
    choose_source-Converts ((name, int z) ∷ rest) issues c = choose_source-Converts rest _ c.1
    choose_source-Converts ((name, bool b) ∷ rest) issues c = choose_source-Converts rest _ c.1

    trifecta-Converts :
        (v : Value) → Converts p R v → All (λ e. Converts p R e.1) (trifecta_primary v)
    unfolding trifecta_primary Converts
    trifecta-Converts (obj f) c = (get_field-Converts p R f "primary" c, tt)
    trifecta-Converts null c = tt
    trifecta-Converts (arr xs) c = tt
    trifecta-Converts (str s) c = tt
    trifecta-Converts (float x) c = tt
    trifecta-Converts (int z) c = tt
    trifecta-Converts (bool b) c = tt

    pub select_raw_candidate_source-Converts :
        All (Converts p R) (select_raw_candidate_source payload normalized).raw_items
    unfolding select_raw_candidate_source
    select_raw_candidate_source-Converts =
        let read = λ (name : String). get_field-Converts p R payload name h in
        choose_source-Converts (prediction_fields payload) [] (
          read "selected_horses",
          (read "predicted", (read "prediction", trifecta-Converts _ (read "trifecta_picks"))),
        )
