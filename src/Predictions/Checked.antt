-- ===== src/Predictions/Checked.antt =====
-- The report that is put together from the source, the items and the candidates.
use kra_analysis.Prelude.{
  ℕ, ◌+◌, List, [], ◌∷◌, ◌++◌, Option, some, true, false, if◌then◌else◌, All, length, length-append,
  ◌==◌, ◌≡◌, ◌↔◌, refl, sym, ap, ◌∙◌, arith, inl, inr, Bool-cases,
}
use kra_analysis.Prelude.Result.{Outcome, Outcome-bind}
use kra_analysis.Prelude.Value.{Value, Fields}
use kra_analysis.Prelude.Table.{values}
use kra_analysis.Predictions.Conversions.{Platform, Raised}
use kra_analysis.Predictions.Candidate.{Candidate, rank_candidates}
use kra_analysis.Predictions.Source.{Issue, RawCandidateSource}
use kra_analysis.Predictions.Lookups.{Scores, Card}
use kra_analysis.Predictions.Report.{
  Report, Collected, collect_items, complete, count_checked, process_items, is_empty, report_of,
  missing_report,
}
use kra_analysis.Predictions.Converts.{Converts, ConvertsFields}
use kra_analysis.Predictions.Ranked.{IsPrediction, rank_candidates-IsPrediction}
use kra_analysis.Predictions.Looking.{OptionalConverts}
use kra_analysis.Predictions.Accepting.{is_accepted, rejections, collect_items-Outcome}
use kra_analysis.Predictions.Reports.{filed_runners, complete-Outcome}

module _ (p : Platform) (card : Card) (source : RawCandidateSource) where
  -- One issue for each source of another type, for each item that is rejected, and for the count.
  abbrev pub issue_count : Report → ℕ
  issue_count r =
      length source.issues
      + rejections p card source.raw_items
      + (if length r.normalized_candidates == 3 then 0 else 1)

  pub record IsReport (r : Report) : Type 0 where
    pub prediction : IsPrediction card r.normalized_candidates
    pub count : r.normalized_candidate_count ≡ length r.normalized_candidates
    pub raw_count : r.raw_candidate_count ≡ length source.raw_items
    pub source_field : r.source_field ≡ source.source_field
    pub issues : length r.issues ≡ issue_count r
    pub valid : r.valid ≡ is_empty r.issues

  not_empty : (xs : List Issue) (x : Issue) → is_empty (xs ++ x ∷ []) ≡ false
  not_empty [] x = refl
  not_empty (y ∷ xs) x = refl

  missing-IsReport : source.raw_items ≡ [] → IsReport (missing_report source)
  unfolding missing_report
  missing-IsReport e = record {
    prediction = record {
      at_most_three = omega arith;
      ranks = refl;
      runners = (tt, tt);
      sorted = tt;
    };
    count = refl;
    raw_count = rw e refl;
    source_field = refl;
    issues = rw e (omega (arith, length-append {0} source.issues (_ ∷ [])));
    valid = sym (not_empty source.issues _);
  }

  counted :
      (issues : List Issue) (cs : List Candidate) (x : Issue)
      → length issues ≡ length source.issues + rejections p card source.raw_items
      → length (if length cs == 3 then issues else issues ++ x ∷ [])
        ≡ length source.issues
          + rejections p card source.raw_items
          + (if length cs == 3 then 0 else 1)
  counted issues cs x n = elim (Bool-cases (length cs == 3)) [
    | inl e ↦ rw e (omega arith)
    | inr e ↦ rw e (omega (arith, length-append {0} issues (x ∷ [])))
  ]

  checked-IsReport :
      (issues : List Issue) (cs : List Candidate)
      → IsPrediction card cs
      → length issues ≡ length source.issues + rejections p card source.raw_items
      → IsReport (count_checked source issues cs)
  unfolding count_checked report_of
  checked-IsReport issues cs h n = record {
    prediction = h;
    count = refl;
    raw_count = refl;
    source_field = refl;
    issues = counted issues cs _ n;
    valid = refl;
  }

  module _ (R : Raised → Type 0) (payload : Fields) (normalized : Option Fields)
      (scores : Scores) where
    pub process_items-Outcome :
        (items : List Value)
        → source.raw_items ≡ items
        → All (Converts p R) items
        → ConvertsFields p R payload
        → OptionalConverts p R normalized
        → Outcome R IsReport (process_items p payload normalized scores card source items)
    unfolding process_items
    process_items-Outcome [] e c h k = missing-IsReport e
    process_items-Outcome (item ∷ items) e c h k =
        let start : Collected = record { issues = source.issues; merged = [] } in
        let same = ap (rejections p card) e in
        Outcome-bind R IsReport
          (collect_items p source.source_field scores card 1 (item ∷ items) start) _
          (collect_items-Outcome p card source.source_field scores R 1 (item ∷ items) start c
            (tt, tt) (omega arith))
          (λ c (merged, count).
            Outcome-bind R IsReport
              (complete p payload normalized scores card
                (rank_candidates (values c.merged) (some 3)))
              _
              (complete-Outcome card p R payload normalized scores _ h k (
                rank_candidates-IsPrediction card (values c.merged)
                  (filed_runners card c.merged merged)))
              (λ cs prediction.
                checked-IsReport c.issues cs prediction (omega (arith, count, same))))

  All-accepted :
      (items : List Value)
      → rejections p card items ≡ 0
      → All (λ item. is_accepted p card item ≡ true) items
  All-accepted [] h = tt
  All-accepted (item ∷ items) h = elim (Bool-cases (is_accepted p card item)) [
    | inl e ↦ (e, All-accepted items (rw e at h))
    | inr e ↦ absurd (ground arith)
  ]

  none_rejected :
      (items : List Value)
      → All (λ item. is_accepted p card item ≡ true) items
      → rejections p card items ≡ 0
  none_rejected [] h = refl
  none_rejected (item ∷ items) h = rw h.0 (none_rejected items h.1)

  no_issue : (xs : List Issue) → (is_empty xs ≡ true) ↔ (length xs ≡ 0)
  no_issue [] = (λ e. refl, λ e. refl)
  no_issue (x ∷ xs) = (λ e. absurd (cc), λ e. absurd (omega arith))

  no_items : (xs : List Issue) → length xs ≡ 0 → xs ≡ []
  no_items [] e = refl
  no_items (x ∷ xs) e = absurd (omega arith)

  pub valid_iff :
      (r : Report)
      → IsReport r
      → (r.valid ≡ true) ↔ (
          (source.issues ≡ [])
          × All (λ item. is_accepted p card item ≡ true) source.raw_items
          × (length r.normalized_candidates ≡ 3))
  valid_iff r report = (forth, back)
    where
      forth :
          r.valid ≡ true
          → (source.issues ≡ [])
            × All (λ item. is_accepted p card item ≡ true) source.raw_items
            × (length r.normalized_candidates ≡ 3)
      forth e =
          let none_left = (no_issue r.issues).0 (sym report.valid ∙ e) in
          let counted = report.issues in
          (
            no_items source.issues (omega (arith, none_left, counted)),
            All-accepted source.raw_items (omega (arith, none_left, counted)),
            ground (arith, none_left, counted),
          )

      back :
          (source.issues ≡ [])
            × All (λ item. is_accepted p card item ≡ true) source.raw_items
            × (length r.normalized_candidates ≡ 3)
          → r.valid ≡ true
      back (empty, accepted, three) =
          report.valid
          ∙ (no_issue r.issues).1 (
              ground (
                arith,
                report.issues,
                none_rejected source.raw_items accepted,
                ap length empty,
                three,
              ))
