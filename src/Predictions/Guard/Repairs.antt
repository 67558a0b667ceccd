-- ===== src/Predictions/Guard/Repairs.antt =====
-- The repair of a report's candidates: what it keeps, and when it reaches three horses.
use kra_analysis.Prelude.{
  ℕ, ◌≤◌, List, [], ◌++◌, map, Option, true, ◌&&◌, length, ltb, ◌≡◌, ◌⊎◌, sym, ◌∙◌, arith,
  Bool-cases, inl, inr, subst,
}
use mathlib.Core.List.{append-nil}
use kra_analysis.Prelude.Result.{ok, Outcome, Outcome-bind, Outcome-eq, ok_inj}
use kra_analysis.Prelude.Value.{Value}
use kra_analysis.Prelude.Members.{Members, Members-length-le}
use kra_analysis.Predictions.Conversions.{Platform, Raised}
use kra_analysis.Predictions.Lookups.{Card}
use kra_analysis.Predictions.Guard.Reading.{FinalCandidate, blocking_codes, ordered_valid_chul_nos}
use kra_analysis.Predictions.Guard.Output.{Repair, number_of, is_nil, fill_from_card, repair}
use kra_analysis.Predictions.Guard.Filling.{AreFinal, fill_from_card-IsFilled}
use kra_analysis.Predictions.Guard.Ordered.{AreOrdered}
use kra_analysis.Predictions.Guard.Finals.{length-map}

module _ (card : Card) (p : Platform) (valid : Option (List Value)) (codes : List Value) where
  -- The repair keeps what was there, and adds different horses of the card, up to three.
  pub record IsRepaired (r s : Repair) : Type 0 where
    pub extra : List FinalCandidate
    pub kept : s.final_candidates ≡ r.final_candidates ++ extra
    pub final : AreFinal card s.final_candidates
    pub at_most_three : length s.final_candidates ≤ 3

  -- Three horses, where nothing blocks and the card has as many.
  abbrev pub Completes : Repair → Type 0
  Completes s =
      (ordered : List ℕ)
      → ordered_valid_chul_nos p valid ≡ ok ordered
      → 3 ≤ length ordered
      → is_nil (blocking_codes codes) ≡ true
      → length s.final_candidates ≡ 3

  left-IsRepaired :
      (r : Repair)
      → AreFinal card r.final_candidates
      → length r.final_candidates ≤ 3
      → IsRepaired r r
  left-IsRepaired r h l = record {
    extra = [];
    kept = sym (append-nil r.final_candidates);
    final = h;
    at_most_three = l;
  }

  filled_enough :
      (ordered : List ℕ) (s : Repair)
      → AreOrdered p card ordered
      → length s.final_candidates ≤ 3
      → (length s.final_candidates ≡ 3) ⊎ Members (map number_of s.final_candidates) ordered
      → 3 ≤ length ordered
      → length s.final_candidates ≡ 3
  filled_enough ordered s o l (inl e) h = e
  filled_enough ordered s o l (inr m) h = omega (
    arith,
    Members-length-le ordered (map number_of s.final_candidates) o.1 m,
    length-map number_of s.final_candidates,
  )

  module _ (R : Raised → Type 0) where
    pub repair-Outcome :
        (r : Repair)
        → Outcome R (AreOrdered p card) (ordered_valid_chul_nos p valid)
        → AreFinal card r.final_candidates
        → length r.final_candidates ≤ 3
        → Outcome R (λ s. IsRepaired r s × Completes s) (repair p valid codes r)
    unfolding repair
    repair-Outcome r o h l =
        elim (Bool-cases (is_nil (blocking_codes codes) && ltb (length r.final_candidates) 3)) [
          | inl e ↦ rw e (
              Outcome-bind R (λ s. IsRepaired r s × Completes s) (ordered_valid_chul_nos p valid) _
                (Outcome-eq R (AreOrdered p card) (ordered_valid_chul_nos p valid) o)
                (λ ns (found, ordered).
                  let filled = fill_from_card-IsFilled card ns r ordered.0 h (ground arith) in
                  (
                    record {
                      extra = filled.extra;
                      kept = filled.kept;
                      final = filled.final;
                      at_most_three = filled.at_most_three;
                    },
                    λ ms found' three _.
                        filled_enough ns (fill_from_card ns r) ordered filled.at_most_three
                          filled.complete
                          (subst (λ l. 3 ≤ length l) (ok_inj ms ns (sym found' ∙ found)) three),
                  )))
          | inr e ↦ rw e (left-IsRepaired r h l, λ ms found three clear. ground arith)
        ]
