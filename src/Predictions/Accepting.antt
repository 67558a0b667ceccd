-- ===== src/Predictions/Accepting.antt =====
-- Which items of the source become candidates, and the issues that are reported.
use kra_analysis.Prelude.{
  ℕ, suc, ◌+◌, ◌<◌, List, [], ◌∷◌, Option, none, some, Bool, false, not, if◌then◌else◌, All, length,
  length-append, keep, ◌≡◌, refl, ap, ◌∙◌, arith, inl, inr, Bool-cases, String, str_eq,
}
use kra_analysis.Prelude.Result.{Result, ok, err, Outcome, Outcome-bind, Outcome-eq, Outcome-weaken}
use kra_analysis.Prelude.Value.{Value}
use kra_analysis.Predictions.Conversions.{
  Platform, Raised, Extracted, coerce_positive_chul_no, extract_candidate_fields,
}
use kra_analysis.Predictions.Lookups.{Scores, Card}
use kra_analysis.Predictions.Supplements.{in_card}
use kra_analysis.Predictions.Report.{Collected, or_unknown, collect_number, collect_items}
use kra_analysis.Predictions.Converts.{IsPositive, Converts, coerce-Outcome, extract-Outcome}
use kra_analysis.Predictions.Merging.{IsMerged, register-IsMerged}

abbrev runs_number : Card → Result Raised (Option ℕ) → Bool
runs_number card (ok (some n)) = in_card card n
runs_number card (ok none) = false
runs_number card (err e) = false

abbrev runs_item : Platform → Card → Result Raised Extracted → Bool
runs_item p card (ok e) = runs_number card (coerce_positive_chul_no p e.0)
runs_item p card (err e) = false

-- The item has the number of a horse that may be predicted.
abbrev pub is_accepted : Platform → Card → Value → Bool
is_accepted p card item = runs_item p card (extract_candidate_fields p item)

abbrev pub rejections : Platform → Card → List Value → ℕ
rejections p card items = length (keep (λ item. not (is_accepted p card item)) items)

or_unknown_named : (source : Option String) → str_eq (or_unknown source) "" ≡ false
or_unknown_named none = refl
or_unknown_named (some s) = elim (Bool-cases (str_eq s "")) [ inl e ↦ rw e refl | inr e ↦ rw e e ]

module _ (p : Platform) (card : Card) (source : Option String) (scores : Scores) where
  -- One issue more for each item that is rejected.
  abbrev pub Counts : ℕ → Collected → Collected → Type 0
  Counts n c c' = length c'.issues ≡ length c.issues + n

  abbrev rejection : Option ℕ → ℕ
  rejection n = if runs_number card (ok n) then 0 else 1

  collect_number-issues :
      (i : ℕ) (e : Extracted) (n : Option ℕ) (c : Collected)
      → Counts (rejection n) c (collect_number source scores card i e n c)
  unfolding collect_number
  collect_number-issues i e none c = omega (arith, length-append {0} c.issues (_ ∷ []))
  collect_number-issues i e (some n) c = elim (Bool-cases (in_card card n)) [
    | inl q ↦ rw q (omega arith)
    | inr q ↦ rw q (omega (arith, length-append {0} c.issues (_ ∷ [])))
  ]

  collect_number-IsMerged :
      (i : ℕ) (e : Extracted) (n : Option ℕ) (c : Collected)
      → IsMerged card c.merged
      → IsPositive n
      → 0 < i
      → IsMerged card (collect_number source scores card i e n c).merged
  unfolding collect_number
  collect_number-IsMerged i e none c h k first = h
  collect_number-IsMerged i e (some n) c h k first = elim (Bool-cases (in_card card n)) [
    | inl q ↦ rw q (register-IsMerged card c.merged _ h (k, q, first, or_unknown_named source))
    | inr q ↦ rw q h
  ]

  rejections-step :
      (item : Value) (items : List Value) (e : Extracted) (n : Option ℕ)
      → extract_candidate_fields p item ≡ ok e
      → coerce_positive_chul_no p e.0 ≡ ok n
      → rejections p card (item ∷ items) ≡ rejection n + rejections p card items
  rejections-step item items e n found number =
      let same : is_accepted p card item ≡ runs_number card (ok n) =
        ap (runs_item p card) found ∙ ap (runs_number card) number in
      elim (Bool-cases (runs_number card (ok n))) [
        | inl q ↦ ground (arith, same, q)
        | inr q ↦ ground (arith, same, q)
      ]

  module _ (R : Raised → Type 0) where
    abbrev pub IsCollected : List Value → Collected → Collected → Type 0
    IsCollected items c c' = IsMerged card c'.merged × Counts (rejections p card items) c c'

    pub collect_items-Outcome :
        (i : ℕ) (items : List Value) (c : Collected)
        → All (Converts p R) items
        → IsMerged card c.merged
        → 0 < i
        → Outcome R (IsCollected items c) (collect_items p source scores card i items c)
    unfolding collect_items
    collect_items-Outcome i [] c h m first = (m, omega arith)
    collect_items-Outcome i (item ∷ items) c h m first =
        Outcome-bind R (IsCollected (item ∷ items) c) (extract_candidate_fields p item) _
          (Outcome-eq R _ (extract_candidate_fields p item) (extract-Outcome p R item h.0))
          (λ e (found, he).
            Outcome-bind R (IsCollected (item ∷ items) c) (coerce_positive_chul_no p e.0) _
              (Outcome-eq R _ (coerce_positive_chul_no p e.0) (coerce-Outcome p R e.0 he))
              (λ n (number, hn).
                let next = collect_number source scores card i e n c in
                Outcome-weaken R (IsCollected (item ∷ items) c)
                  (collect_items p source scores card (suc i) items next)
                  (λ c' (merged, count). (
                    merged,
                    omega (
                      arith,
                      count,
                      rejections-step item items e n found number,
                      collect_number-issues i e n c,
                    ),
                  ))
                  (collect_items-Outcome (suc i) items next h.1
                    (collect_number-IsMerged i e n c m hn first) (omega arith))))
