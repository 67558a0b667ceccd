-- ===== src/Predictions/Reports.antt =====
-- What postprocess_prediction_candidates returns.
use kra_analysis.Prelude.{
  List, [], ◌∷◌, map, Option, none, some, false, not, All, All-keep, length, keep, ltb, ◌≡◌, refl,
  inl, inr, Bool-cases, String, str_eq,
}
use kra_analysis.Prelude.Text.{◌+++◌}
use kra_analysis.Prelude.Result.{ok, Outcome, Outcome-bind}
use kra_analysis.Prelude.Value.{Fields}
use kra_analysis.Prelude.Sorting.{sort_by, sort_by-All, sort_by-Distinct}
use kra_analysis.Prelude.Table.{
  Table, Named, Apart, member, values, member-Apart, keep-Distinct, values-All, values-Distinct,
}
use kra_analysis.Predictions.Conversions.{Platform, Raised}
use kra_analysis.Predictions.Candidate.{Candidate, before}
use kra_analysis.Predictions.Lookups.{Scores, Card}
use kra_analysis.Predictions.Supplements.{
  supplement_optional, supplement_container, build_supplement_candidates,
}
use kra_analysis.Predictions.Report.{complete, fill}
use kra_analysis.Predictions.Converts.{ConvertsFields, get_field-Converts}
use kra_analysis.Predictions.Merging.{RunsIn, IsFiled, IsMerged, sequence-Outcome, mapping-Outcome}
use kra_analysis.Predictions.Ranked.{
  chul_no_of, AreRunners, IsPrediction, rank_candidates-IsPrediction, fill-AreRunners,
}
use kra_analysis.Predictions.Looking.{OptionalConverts}

module _ (card : Card) where
  runs : (t : Table Candidate) → All (λ e. IsFiled card e.0 e.1) t → All (λ e. RunsIn card e.1) t
  runs [] h = tt
  runs ((k, c) ∷ t) h = (h.0.1, runs t h.1)

  named : (t : Table Candidate) → All (λ e. IsFiled card e.0 e.1) t → Named chul_no_of t
  named [] h = tt
  named ((k, c) ∷ t) h = (h.0.0, named t h.1)

  pub filed_runners : (t : Table Candidate) → IsMerged card t → AreRunners card (values t)
  filed_runners t (filed, keyed) = (
    values-All (RunsIn card) t (runs t filed),
    values-Distinct chul_no_of t (named t filed) keyed,
  )

  other_horses :
      (selected cs : List Candidate)
      → All
          (Apart chul_no_of selected)
          (keep (λ c. not (member (map chul_no_of selected) c.chul_no)) cs)
  other_horses selected [] = tt
  other_horses selected (c ∷ cs) = elim (Bool-cases (member (map chul_no_of selected) c.chul_no)) [
    | inl e ↦ rw e (other_horses selected cs)
    | inr e ↦ rw e (member-Apart chul_no_of selected c e, other_horses selected cs)
  ]

  -- The candidates of a table that are not selected, in order.
  abbrev chosen : List Candidate → Table Candidate → List Candidate
  chosen selected t =
      keep (λ c. not (member (map chul_no_of selected) c.chul_no)) (sort_by before (values t))

  abbrev Supplement : List Candidate → List Candidate → Type 0
  Supplement selected ss = AreRunners card ss × All (Apart chul_no_of selected) ss

  -- The names of the four sources are no empty texts.
  abbrev Names : String → Type 0
  Names name =
      (str_eq (name +++ ".primary_scores") "" ≡ false)
      × (str_eq (name +++ ".predictions") "" ≡ false)
      × (str_eq (name +++ ".fallback_ranking") "" ≡ false)
      × (str_eq (name +++ ".model_scores") "" ≡ false)

  module _ (p : Platform) (R : Raised → Type 0) where
    container-Outcome :
        (name : String) (scores : Scores) (f : Fields) (t : Table Candidate)
        → ConvertsFields p R f
        → IsMerged card t
        → Names name
        → Outcome R (IsMerged card) (supplement_container p name scores card f t)
    unfolding supplement_container
    container-Outcome name scores f t h m n =
        let read = λ (k : String). get_field-Converts p R f k h in
        Outcome-bind R (IsMerged card) _ _
          (sequence-Outcome card p R _ scores _ t (read "primary_scores") m n.0)
          (λ t1 m1.
            Outcome-bind R (IsMerged card) _ _
              (sequence-Outcome card p R _ scores _ t1 (read "predictions") m1 n.1)
              (λ t2 m2.
                Outcome-bind R (IsMerged card) _ _
                  (sequence-Outcome card p R _ scores _ t2 (read "fallback_ranking") m2 n.2)
                  (λ t3 m3. mapping-Outcome card p R _ _ t3 (read "model_scores") m3 n.3)))

    optional-Outcome :
        (scores : Scores) (f : Option Fields)
        → OptionalConverts p R f
        → Outcome R (IsMerged card) (supplement_optional p scores card f)
    unfolding supplement_optional
    optional-Outcome scores none h = (tt, tt)
    optional-Outcome scores (some f) h =
        container-Outcome "normalized" scores f [] h (tt, tt) (refl, refl, refl, refl)

    supplements-Outcome :
        (payload : Fields) (normalized : Option Fields) (scores : Scores)
        (selected : List Candidate)
        → ConvertsFields p R payload
        → OptionalConverts p R normalized
        → Outcome R
            (Supplement selected)
            (build_supplement_candidates p payload normalized scores card (map chul_no_of selected))
    unfolding build_supplement_candidates
    supplements-Outcome payload normalized scores selected h k =
        Outcome-bind R (Supplement selected) (supplement_optional p scores card normalized) _
          (optional-Outcome scores normalized k)
          (λ t0 m0.
            Outcome-bind R (Supplement selected)
              (supplement_container p "raw" scores card payload t0) (λ t1. ok (chosen selected t1))
              (container-Outcome "raw" scores payload t0 h m0 (refl, refl, refl, refl))
              (λ t1 m1.
                let (all, different) = filed_runners t1 m1 in
                let sorted = sort_by before (values t1) in
                let test = λ (c : Candidate). not (member (map chul_no_of selected) c.chul_no) in
                (
                  (
                    All-keep (RunsIn card) test sorted
                        (sort_by-All before (RunsIn card) (values t1) all),
                    keep-Distinct chul_no_of test sorted
                        (sort_by-Distinct before chul_no_of (values t1) different),
                  ),
                  other_horses selected sorted,
                )))

    pub complete-Outcome :
        (payload : Fields) (normalized : Option Fields) (scores : Scores)
        (selected : List Candidate)
        → ConvertsFields p R payload
        → OptionalConverts p R normalized
        → IsPrediction card selected
        → Outcome R (IsPrediction card) (complete p payload normalized scores card selected)
    unfolding complete
    complete-Outcome payload normalized scores selected h k prediction =
        elim (Bool-cases (ltb (length selected) 3)) [
          | inl e ↦ rw e (
              Outcome-bind R (IsPrediction card)
                (build_supplement_candidates p payload normalized scores card
                  (map chul_no_of selected))
                _ (supplements-Outcome payload normalized scores selected h k)
                (λ ss (runners, apart).
                  rank_candidates-IsPrediction card (fill selected ss)
                    (fill-AreRunners card selected ss prediction.runners runners apart)))
          | inr e ↦ rw e prediction
        ]
