-- ===== src/Predictions/Guarantees.antt =====
-- What postprocess_prediction_candidates promises for a payload whose values convert.
use kra_analysis.Prelude.{List, [], Option, true, All, length, ◌≡◌, ◌↔◌, refl, ap}
use kra_analysis.Prelude.Result.{
  ok, ◌>>=◌, Outcome, Outcome-bind, Outcome-eq, Outcome-weaken, Outcome-returns,
}
use kra_analysis.Prelude.Value.{Value, Fields}
use kra_analysis.Predictions.Conversions.{Platform, Raised}
use kra_analysis.Predictions.Source.{RawCandidateSource, select_raw_candidate_source}
use kra_analysis.Predictions.Lookups.{Card, build_score_lookup, extract_valid_chul_nos}
use kra_analysis.Predictions.Report.{
  Report, process_items, postprocess_report, postprocess_prediction_candidates, Report_to_dict,
}
use kra_analysis.Predictions.Converts.{ConvertsFields}
use kra_analysis.Predictions.Ranked.{IsPrediction}
use kra_analysis.Predictions.Looking.{OptionalConverts, build_score_lookup-Returns}
use kra_analysis.Predictions.Cards.{NumbersConvert, extract_valid_chul_nos-Returns}
use kra_analysis.Predictions.Accepting.{is_accepted}
use kra_analysis.Predictions.Sourced.{select_raw_candidate_source-Converts}
use kra_analysis.Predictions.Checked.{IsReport, process_items-Outcome, valid_iff}

module _ (p : Platform) (payload : Fields) (normalized : Option Fields)
    (valid : Option (List Value)) where
  abbrev source : RawCandidateSource
  source = select_raw_candidate_source payload normalized

  -- Every text of digits, every key and every integer of the arguments can be converted.
  abbrev pub Convert : (Raised → Type 0) → Type 0
  Convert R =
      ConvertsFields p R payload × OptionalConverts p R normalized × NumbersConvert p R valid

  abbrev Promised : Report → Type 0
  Promised r =
      (card : Card) × (extract_valid_chul_nos p payload normalized valid ≡ ok card)
      × IsReport p card source r

  IsReport-Outcome :
      (R : Raised → Type 0)
      → Convert R
      → Outcome R
          (λ r.
            (card : Card) × (extract_valid_chul_nos p payload normalized valid ≡ ok card)
            × IsReport p card source r)
          (postprocess_report p payload normalized valid)
  unfolding postprocess_report
  IsReport-Outcome R (h, k, v) =
      Outcome-bind R Promised (build_score_lookup p payload normalized) _
        (build_score_lookup-Returns p R payload normalized h k)
        (λ scores _.
          Outcome-bind R Promised (extract_valid_chul_nos p payload normalized valid) _
            (Outcome-eq R _ (extract_valid_chul_nos p payload normalized valid)
              (extract_valid_chul_nos-Returns p R payload normalized valid h k v))
            (λ card (found, _).
              Outcome-weaken R Promised
                (process_items p payload normalized scores card source source.raw_items)
                (λ r is_report. (card, found, is_report))
                (process_items-Outcome p card source R payload normalized scores source.raw_items
                  refl (select_raw_candidate_source-Converts p R payload normalized h k) h k)))

  pub report_returns :
      Convert (λ _. ⊥)
      → (r : Report) × (card : Card) × (postprocess_report p payload normalized valid ≡ ok r)
        × (extract_valid_chul_nos p payload normalized valid ≡ ok card)
        × IsReport p card source r
  report_returns c =
      let (r, found, promised) =
        Outcome-returns (postprocess_report p payload normalized valid)
          (IsReport-Outcome (λ _. ⊥) c) in
      (r, promised.0, found, promised.1, promised.2)

  -- The report is returned as a dict.
  pub returned :
      (r : Report)
      → postprocess_report p payload normalized valid ≡ ok r
      → postprocess_prediction_candidates p payload normalized valid ≡ ok (Report_to_dict r)
  unfolding postprocess_prediction_candidates
  returned r found = ap (λ m. m >>= (λ r. ok (Report_to_dict r))) found

  -- Where the texts of digits, the keys and the integers of the arguments can be converted,
  -- postprocess_prediction_candidates returns a report. Its candidates are at most three, of
  -- different positive horse numbers that the race card has, where one is found, ranked 1, 2, 3 in
  -- the order of priority; the report counts them.
  pub postprocess-IsPrediction :
      Convert (λ _. ⊥)
      → (r : Report) × (card : Card) × (postprocess_prediction_candidates p payload normalized valid
          ≡ ok (Report_to_dict r))
        × (extract_valid_chul_nos p payload normalized valid ≡ ok card)
        × IsPrediction card r.normalized_candidates
        × (r.normalized_candidate_count ≡ length r.normalized_candidates)
  postprocess-IsPrediction c =
      let (r, card, result, found, report) = report_returns c in
      (r, card, returned r result, found, report.prediction, report.count)

  -- Where the arguments can be converted, the report that postprocess_prediction_candidates returns
  -- is valid exactly when no field that was passed over for its type stands before the source, every
  -- item of the source has the number of a horse of the race card, and there are three candidates.
  pub postprocess-valid :
      Convert (λ _. ⊥)
      → (r : Report) × (card : Card) × (postprocess_prediction_candidates p payload normalized valid
          ≡ ok (Report_to_dict r))
        × (extract_valid_chul_nos p payload normalized valid ≡ ok card)
        × ((r.valid ≡ true) ↔ (
            (source.issues ≡ [])
            × All (λ item. is_accepted p card item ≡ true) source.raw_items
            × (length r.normalized_candidates ≡ 3)))
  postprocess-valid c =
      let (r, card, result, found, report) = report_returns c in
      (r, card, returned r result, found, valid_iff p card source r report)
