-- ===== src/Predictions/Guard/Finals.antt =====
-- Lists of final candidates: their numbering, and those that are read back from a report.
use kra_analysis.Prelude.{
  ℕ, zero, suc, ◌<◌, ◌≤◌, List, [], ◌∷◌, map, All, length, ◌≡◌, ◌≢◌, refl, ap, arith, take,
}
use kra_analysis.Predictions.Candidate.{Candidate}
use kra_analysis.Predictions.Lookups.{Card}
use kra_analysis.Predictions.Ranked.{AreRunners, chul_no_of, rank_of, count_from}
use kra_analysis.Predictions.Guard.Reading.{FinalCandidate}
use kra_analysis.Predictions.Guard.Output.{number_of, renumbered}
use kra_analysis.Predictions.Guard.Restored.{restored, IsReadable}
use kra_analysis.Predictions.Guard.Filling.{AreFinal}

pub length-map {ℓ κ} :
    {A : Type ℓ} {B : Type κ} (f : A → B) (xs : List A) → length (map f xs) ≡ length xs
length-map f [] = refl
length-map f (x ∷ xs) = omega (arith, length-map f xs)

abbrev pub final_rank : FinalCandidate → ℕ
final_rank c = c.rank

pub take_all {ℓ} : {A : Type ℓ} (n : ℕ) (xs : List A) → length xs ≤ n → take n xs ≡ xs
take_all zero [] h = refl
take_all zero (x ∷ xs) h = absurd (omega arith)
take_all (suc n) [] h = refl
take_all (suc n) (x ∷ xs) h = ap (◌∷◌ x) (take_all n xs (omega arith))

module _ (card : Card) where
  -- At most three different horses of the race card, ranked from 1 on.
  pub record IsFinal (cs : List FinalCandidate) : Type 0 where
    pub at_most_three : length cs ≤ 3
    pub ranks : map final_rank cs ≡ count_from 1 (length cs)
    pub runners : AreFinal card cs

  pub renumbered-length : (i : ℕ) (cs : List FinalCandidate) → length (renumbered i cs) ≡ length cs
  renumbered-length i [] = refl
  renumbered-length i (c ∷ cs) = omega (arith, renumbered-length (suc i) cs)

  renumbered-ranks :
      (i : ℕ) (cs : List FinalCandidate)
      → map final_rank (renumbered i cs) ≡ count_from i (length cs)
  renumbered-ranks i [] = refl
  renumbered-ranks i (c ∷ cs) = ap (◌∷◌ i) (renumbered-ranks (suc i) cs)

  pub renumbered-numbers :
      (i : ℕ) (cs : List FinalCandidate) → map number_of (renumbered i cs) ≡ map number_of cs
  renumbered-numbers i [] = refl
  renumbered-numbers i (c ∷ cs) = ap (◌∷◌ c.chul_no) (renumbered-numbers (suc i) cs)

  renumbered-All :
      (P : ℕ → Type 0) (i : ℕ) (cs : List FinalCandidate)
      → All (λ c. P (number_of c)) cs
      → All (λ c. P (number_of c)) (renumbered i cs)
  renumbered-All P i [] h = tt
  renumbered-All P i (c ∷ cs) h = (h.0, renumbered-All P (suc i) cs h.1)

  renumbered-AreFinal :
      (i : ℕ) (cs : List FinalCandidate) → AreFinal card cs → AreFinal card (renumbered i cs)
  renumbered-AreFinal i [] h = (tt, tt)
  renumbered-AreFinal i (c ∷ cs) (r, d) =
      let rest = renumbered-AreFinal (suc i) cs (r.1, d.1) in
      ((r.0, rest.0), (renumbered-All (λ n. n ≢ c.chul_no) (suc i) cs d.0, rest.1))

  pub renumbered-IsFinal :
      (cs : List FinalCandidate)
      → AreFinal card cs
      → length cs ≤ 3
      → IsFinal (renumbered 1 (take 3 cs))
  renumbered-IsFinal cs h l = rw (take_all 3 cs l) (record {
    at_most_three = omega (arith, renumbered-length 1 cs);
    ranks = rw (renumbered-length 1 cs) (renumbered-ranks 1 cs);
    runners = renumbered-AreFinal 1 cs h;
  })

  -- The candidates of a report can be read, and are different horses of the card.
  pub restored-AreFinal :
      (cs : List Candidate) → AreRunners card cs → AreFinal card (map restored cs)
  restored-AreFinal [] h = (tt, tt)
  restored-AreFinal (c ∷ cs) (r, d) =
      let rest = restored-AreFinal cs (r.1, d.1) in
      (((r.0.0, r.0.1), rest.0), (others c.chul_no cs d.0, rest.1))
    where
      others :
          (n : ℕ) (cs : List Candidate)
          → All (λ d. chul_no_of d ≢ n) cs
          → All (λ d. number_of d ≢ n) (map restored cs)
      others n [] h = tt
      others n (c ∷ cs) h = (h.0, others n cs h.1)

  pub ranked-IsReadable :
      (i : ℕ) (cs : List Candidate)
      → 0 < i
      → AreRunners card cs
      → map rank_of cs ≡ count_from i (length cs)
      → All IsReadable cs
  ranked-IsReadable i [] p h e = tt
  ranked-IsReadable i (c ∷ cs) p (r, d) e =
      let same_rank : c.rank ≡ i = cc in
      let others : map rank_of cs ≡ count_from (suc i) (length cs) = cc in
      (
        (omega (arith, same_rank), r.0.0, r.0.2, r.0.3),
        ranked-IsReadable (suc i) cs (omega arith) (r.1, d.1) others,
      )
