-- ===== src/Predictions/Guard/Accepted.antt =====
-- What guard_prediction_output returns, and when it accepts.
use kra_analysis.Prelude.{
  ℕ, ◌≤◌, List, [], ◌∷◌, ◌++◌, map, Option, true, ◌&&◌, All, length, length-append, ◌==◌, ◌≡◌, ◌⊎◌,
  refl, sym, ap, ◌∙◌, arith, take, inl, inr, subst,
}
use mathlib.Core.List.{map-append}
use kra_analysis.Prelude.Result.{ok, ◌>>=◌, Outcome-returns, ok_inj}
use kra_analysis.Prelude.Value.{Value, Fields, str, obj, end}
use kra_analysis.Predictions.Conversions.{Platform}
use kra_analysis.Predictions.Candidate.{Candidate, Candidate_to_dict}
use kra_analysis.Predictions.Source.{Issue}
use kra_analysis.Predictions.Lookups.{Card, extract_valid_chul_nos}
use kra_analysis.Predictions.Report.{
  Report, Report_to_dict, postprocess_report, postprocess_prediction_candidates,
}
use kra_analysis.Predictions.Ranked.{chul_no_of}
use kra_analysis.Predictions.Guarantees.{Convert, report_returns, returned}
use kra_analysis.Predictions.Guard.Reading.{blocking_codes, ordered_valid_chul_nos}
use kra_analysis.Predictions.Guard.Output.{
  Repair, GuardResult, GuardResult_to_dict, number_of, is_nil, renumbered, guard_result,
  guard_report, guard_value, repair, guard_prediction_output, first_actions,
}
use kra_analysis.Predictions.Guard.Restored.{
  restored, IsReadable, base_candidates-restored, elements-items_of,
}
use kra_analysis.Predictions.Guard.Ordered.{ordered_valid_chul_nos-Outcome}
use kra_analysis.Predictions.Guard.Finals.{
  IsFinal, length-map, take_all, renumbered-length, renumbered-numbers, renumbered-IsFinal,
  restored-AreFinal, ranked-IsReadable,
}
use kra_analysis.Predictions.Guard.Repairs.{IsRepaired, Completes, repair-Outcome}

abbrev pub codes_of : Report → List Value
codes_of r = map (λ (i : Issue). str i.code) r.issues

abbrev dict_fields : Value → Fields
dict_fields (obj f) = f
dict_fields _ = end

-- What the guard starts from.
abbrev start : Report → Repair
start r = record {
  final_candidates = map restored r.normalized_candidates;
  repair_actions = first_actions (dict_fields (Report_to_dict r)) (codes_of r);
}

abbrev finished : Report → Repair → GuardResult
finished r s = guard_result (Report_to_dict r) (codes_of r) s.final_candidates s.repair_actions

module _ (p : Platform) (valid : Option (List Value)) where
  guard_report-restored :
      (r : Report)
      → All IsReadable r.normalized_candidates
      → guard_report p valid (dict_fields (Report_to_dict r))
        ≡ (repair p valid (codes_of r) (start r) >>= (λ s. ok (finished r s)))
  unfolding guard_report Report_to_dict
  guard_report-restored r h =
      rw
        (
          elements-items_of (map Candidate_to_dict r.normalized_candidates),
          elements-items_of (codes_of r),
          base_candidates-restored p r.normalized_candidates h,
        )
        refl

  report_value :
      (r : Report)
      → guard_value p valid (Report_to_dict r)
        ≡ guard_report p valid (dict_fields (Report_to_dict r))
  unfolding Report_to_dict guard_report
  report_value r = refl

  -- From a report on, the guard is the repair.
  guard-repair :
      (payload : Fields) (normalized : Option Fields) (r : Report) (s : Repair)
      → postprocess_prediction_candidates p payload normalized valid ≡ ok (Report_to_dict r)
      → All IsReadable r.normalized_candidates
      → repair p valid (codes_of r) (start r) ≡ ok s
      → guard_prediction_output p payload normalized valid ≡ ok (GuardResult_to_dict (finished r s))
  unfolding guard_prediction_output
  guard-repair payload normalized r s found h e =
      ap (λ m. m >>= (λ d. guard_value p valid d >>= (λ g. ok (GuardResult_to_dict g)))) found
      ∙ ap (λ m. m >>= (λ g. ok (GuardResult_to_dict g)))
          (report_value r ∙ guard_report-restored r h)
      ∙ ap (λ m. (m >>= (λ s. ok (finished r s))) >>= (λ g. ok (GuardResult_to_dict g))) e

module _ (p : Platform) (payload : Fields) (normalized : Option Fields)
    (valid : Option (List Value)) where
  abbrev Guarded : Report → Card → Repair → Type 0
  Guarded r card s =
      (postprocess_report p payload normalized valid ≡ ok r)
      × (extract_valid_chul_nos p payload normalized valid ≡ ok card)
      × (guard_prediction_output p payload normalized valid
          ≡ ok (GuardResult_to_dict (finished r s)))
      × IsRepaired card p valid (codes_of r) (start r) s
      × Completes card p valid (codes_of r) s

  guarded :
      Convert p payload normalized valid (λ _. ⊥)
      → (r : Report) × (card : Card) × (s : Repair) × Guarded r card s
  guarded c =
      let (r, card, found, on_card, report) = report_returns p payload normalized valid c in
      let prediction = report.prediction in
      let readable =
        ranked-IsReadable card 1 r.normalized_candidates (omega arith) prediction.runners
          prediction.ranks in
      let (s, repaired, promised) = Outcome-returns (repair p valid (codes_of r) (start r)) (
        repair-Outcome card p valid (codes_of r) (λ _. ⊥) (start r)
          (ordered_valid_chul_nos-Outcome p (λ _. ⊥) payload normalized card valid c.2 on_card)
          (restored-AreFinal card r.normalized_candidates prediction.runners)
          (omega (arith, length-map restored r.normalized_candidates, prediction.at_most_three))) in
      (
        r,
        card,
        s,
        (
          found,
          on_card,
          guard-repair p valid payload normalized r s (returned p payload normalized valid r found)
              readable repaired,
          promised.0,
          promised.1,
        ),
      )

  -- Where the arguments can be converted, guard_prediction_output returns a result. Its candidates
  -- are at most three, of different positive horse numbers that the race card has, where one is
  -- found, ranked from 1 on; it is accepted exactly when there are three and no issue code blocks.
  pub guard-IsFinal :
      Convert p payload normalized valid (λ _. ⊥)
      → (g : GuardResult) × (card : Card) × (guard_prediction_output p payload normalized valid
          ≡ ok (GuardResult_to_dict g))
        × (extract_valid_chul_nos p payload normalized valid ≡ ok card)
        × IsFinal card g.final_candidates
        × (g.accepted ≡ (length g.final_candidates == 3 && is_nil g.blocking_issue_codes))
  unfolding guard_result
  guard-IsFinal c =
      let (r, card, s, (_, on_card, result, repaired, _)) = guarded c in
      (
        finished r s,
        card,
        result,
        on_card,
        renumbered-IsFinal card s.final_candidates repaired.final repaired.at_most_three,
        refl,
      )

  restored-numbers : (cs : List Candidate) → map number_of (map restored cs) ≡ map chul_no_of cs
  restored-numbers [] = refl
  restored-numbers (c ∷ cs) = ap (◌∷◌ c.chul_no) (restored-numbers cs)

  -- With three candidates to begin with, or a card of three, there are three in the end.
  three_final :
      (r : Report) (card : Card) (s : Repair) (ordered : List ℕ)
      → Guarded r card s
      → blocking_codes (codes_of r) ≡ []
      → ordered_valid_chul_nos p valid ≡ ok ordered
      → (length r.normalized_candidates ≡ 3) ⊎ (3 ≤ length ordered)
      → length s.final_candidates ≡ 3
  three_final r card s ordered (_, _, _, repaired, completes) clear on_card (inl three) = omega (
    arith,
    repaired.at_most_three,
    ap length repaired.kept,
    length-append (map restored r.normalized_candidates) repaired.extra,
    length-map restored r.normalized_candidates,
  )
  three_final r card s ordered (_, _, _, repaired, completes) clear on_card (inr enough) =
      completes ordered on_card enough (rw clear refl)

  accepted :
      (r : Report) (card : Card) (s : Repair) (ordered : List ℕ)
      → Guarded r card s
      → blocking_codes (codes_of r) ≡ []
      → ordered_valid_chul_nos p valid ≡ ok ordered
      → (length r.normalized_candidates ≡ 3) ⊎ (3 ≤ length ordered)
      → (g : GuardResult) × (others : List ℕ) × (guard_prediction_output p payload normalized valid
          ≡ ok (GuardResult_to_dict g))
        × (g.accepted ≡ true)
        × (length g.final_candidates ≡ 3)
        × (map number_of g.final_candidates ≡ map chul_no_of r.normalized_candidates ++ others)
  unfolding guard_result
  accepted r card s ordered guarded clear on_card enough =
      let (_, _, result, repaired, _) = guarded in
      let three = three_final r card s ordered guarded clear on_card enough in
      let all = take_all 3 s.final_candidates repaired.at_most_three in
      let long : length (renumbered 1 (take 3 s.final_candidates)) ≡ 3 =
        rw all (renumbered-length card 1 s.final_candidates ∙ three) in
      (
        finished r s,
        map number_of repaired.extra,
        result,
        rw (long, clear) refl,
        long,
        renumbered-numbers card 1 (take 3 s.final_candidates)
            ∙ ap (map number_of) (all ∙ repaired.kept)
            ∙ map-append number_of (map restored r.normalized_candidates) repaired.extra
            ∙ ap (λ l. l ++ map number_of repaired.extra)
                (restored-numbers r.normalized_candidates),
      )

  -- Where the arguments can be converted, postprocess_prediction_candidates reports no blocking
  -- issue, and three candidates are reported or the given race card has three different horses:
  -- guard_prediction_output accepts, and its horses are three, those of the report first, in their
  -- order.
  pub guard-accepts :
      (r : Report) (ordered : List ℕ)
      → Convert p payload normalized valid (λ _. ⊥)
      → postprocess_report p payload normalized valid ≡ ok r
      → blocking_codes (codes_of r) ≡ []
      → ordered_valid_chul_nos p valid ≡ ok ordered
      → (length r.normalized_candidates ≡ 3) ⊎ (3 ≤ length ordered)
      → (g : GuardResult) × (others : List ℕ) × (guard_prediction_output p payload normalized valid
          ≡ ok (GuardResult_to_dict g))
        × (g.accepted ≡ true)
        × (length g.final_candidates ≡ 3)
        × (map number_of g.final_candidates ≡ map chul_no_of r.normalized_candidates ++ others)
  guard-accepts r ordered c found clear on_card enough =
      let (r', card', s', all) = guarded c in
      let (card, s, same) =
        subst (λ (q : Report). (card : Card) × (s : Repair) × Guarded q card s)
          (ok_inj r' r (sym all.0 ∙ found)) (card', s', all) in
      accepted r card s ordered same clear on_card enough
