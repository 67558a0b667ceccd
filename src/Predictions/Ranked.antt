-- ===== src/Predictions/Ranked.antt =====
-- The order of the candidates and what ranking does to a list of different horses.
use kra_analysis.Prelude.{
  ℕ, zero, suc, ◌≤◌, List, [], ◌∷◌, ◌++◌, map, some, true, false, if◌then◌else◌, All, All-take,
  All-append, length, length-take, take, ◌==◌, ◌≡◌, ◌≢◌, refl, sym, arith,
}
use kra_analysis.Prelude.Integers.{tuple_lt_asym, tuple_lt_weak}
use kra_analysis.Prelude.Sorting.{
  IsStrictWeak, IsSorted, sort_by, sort_by-All, sort_by-Distinct, sort_by-IsSorted, take-IsSorted,
}
use kra_analysis.Prelude.Table.{Distinct, Apart, take-Distinct, append-Distinct}
use kra_analysis.Predictions.Candidate.{
  Candidate, candidate_priority_key, before, with_rank, ranked_from, rank_candidates,
}
use kra_analysis.Predictions.Lookups.{Card}
use kra_analysis.Predictions.Report.{fill}
use kra_analysis.Predictions.Merging.{RunsIn}

before-IsStrictWeak : IsStrictWeak before
unfolding before
before-IsStrictWeak = record {
  asym = λ x y. tuple_lt_asym (candidate_priority_key x) (candidate_priority_key y);
  weak = λ x y z.
      tuple_lt_weak (candidate_priority_key x) (candidate_priority_key y)
        (candidate_priority_key z);
}

abbrev pub chul_no_of : Candidate → ℕ
chul_no_of c = c.chul_no

abbrev pub rank_of : Candidate → ℕ
rank_of c = c.rank

-- n numbers from i on
abbrev pub count_from : ℕ → ℕ → List ℕ
count_from i zero = []
count_from i (suc n) = i ∷ count_from (suc i) n

ranked_from-ranks :
    (i : ℕ) (cs : List Candidate) → map rank_of (ranked_from i cs) ≡ count_from i (length cs)
ranked_from-ranks i [] = refl
ranked_from-ranks i (c ∷ cs) = rw (ranked_from-ranks (suc i) cs) refl

ranked_from-length : (i : ℕ) (cs : List Candidate) → length (ranked_from i cs) ≡ length cs
ranked_from-length i [] = refl
ranked_from-length i (c ∷ cs) = omega (arith, ranked_from-length (suc i) cs)

module _ (P : Candidate → Type 0) (kept : (j : ℕ) (c : Candidate) → P c → P (with_rank j c)) where
  ranked_from-All : (i : ℕ) (cs : List Candidate) → All P cs → All P (ranked_from i cs)
  ranked_from-All i [] h = tt
  ranked_from-All i (c ∷ cs) h = (kept i c h.0, ranked_from-All (suc i) cs h.1)

ranked_from-Distinct :
    (i : ℕ) (cs : List Candidate) → Distinct chul_no_of cs → Distinct chul_no_of (ranked_from i cs)
ranked_from-Distinct i [] h = tt
ranked_from-Distinct i (c ∷ cs) h = (
  ranked_from-All (λ d. d.chul_no ≢ c.chul_no) (λ _ _ apart. apart) (suc i) cs h.0,
  ranked_from-Distinct (suc i) cs h.1,
)

-- The rank is no part of the order.
module _ (x : Candidate) where
  ranked_from-below :
      (i j : ℕ) (cs : List Candidate)
      → All (λ y. before y x ≡ false) cs
      → All (λ y. before y (with_rank j x) ≡ false) (ranked_from i cs)
  unfolding before candidate_priority_key
  ranked_from-below i j [] h = tt
  ranked_from-below i j (c ∷ cs) h = (h.0, ranked_from-below (suc i) j cs h.1)

ranked_from-IsSorted :
    (i : ℕ) (cs : List Candidate) → IsSorted before cs → IsSorted before (ranked_from i cs)
ranked_from-IsSorted i [] h = tt
ranked_from-IsSorted i (c ∷ cs) h =
    (ranked_from-below c (suc i) i cs h.0, ranked_from-IsSorted (suc i) cs h.1)

still-Apart :
    (cs : List Candidate) (s : Candidate) (ss : List Candidate)
    → All (Apart chul_no_of cs) ss
    → All (λ t. t.chul_no ≢ s.chul_no) ss
    → All (Apart chul_no_of (cs ++ s ∷ [])) ss
still-Apart cs s [] h k = tt
still-Apart cs s (t ∷ ss) h k = (
  All-append (λ (c : Candidate). c.chul_no ≢ t.chul_no) cs (s ∷ []) h.0 ((λ e. k.0 (sym e)), tt),
  still-Apart cs s ss h.1 k.1,
)

module _ (card : Card) where
  -- Different horses that run.
  abbrev pub AreRunners : List Candidate → Type 0
  AreRunners cs = All (RunsIn card) cs × Distinct chul_no_of cs

  -- At most three different horses that run, ranked from 1 on, in the order of priority.
  pub record IsPrediction (cs : List Candidate) : Type 0 where
    pub at_most_three : length cs ≤ 3
    pub ranks : map rank_of cs ≡ count_from 1 (length cs)
    pub runners : AreRunners cs
    pub sorted : IsSorted before cs

  pub rank_candidates-IsPrediction :
      (cs : List Candidate) → AreRunners cs → IsPrediction (rank_candidates cs (some 3))
  unfolding rank_candidates
  rank_candidates-IsPrediction cs h =
      let sorted = sort_by before cs in
      let first = take 3 sorted in
      let length_eq = ranked_from-length 1 first in
      record {
        at_most_three = omega (arith, length_eq, length-take {0} 3 sorted);
        ranks = rw length_eq (ranked_from-ranks 1 first);
        runners = (
          ranked_from-All (RunsIn card) (λ _ _ r. r) 1 first
              (All-take _ 3 sorted (sort_by-All before (RunsIn card) cs h.0)),
          ranked_from-Distinct 1 first
              (take-Distinct chul_no_of 3 sorted (sort_by-Distinct before chul_no_of cs h.1)),
        );
        sorted =
            ranked_from-IsSorted 1 first
              (take-IsSorted before 3 sorted (sort_by-IsSorted before before-IsStrictWeak cs));
      }

  -- The supplements are other horses than those that are selected.
  pub fill-AreRunners :
      (cs ss : List Candidate)
      → AreRunners cs
      → AreRunners ss
      → All (Apart chul_no_of cs) ss
      → AreRunners (fill cs ss)
  unfolding fill
  fill-AreRunners cs [] h k apart = h
  fill-AreRunners cs (s ∷ ss) h k apart =
      let longer : AreRunners (cs ++ s ∷ []) = (
        All-append (RunsIn card) cs (s ∷ []) h.0 (k.0.0, tt),
        append-Distinct chul_no_of cs s h.1 apart.0,
      ) in
      elim (length (cs ++ s ∷ []) == 3)
        as (λ b. AreRunners (if b then cs ++ s ∷ [] else fill (cs ++ s ∷ []) ss)) [
          | true ↦ longer
          | false ↦
              fill-AreRunners (cs ++ s ∷ []) ss longer (k.0.1, k.1.1)
                (still-Apart cs s ss apart.1 k.1.0)
        ]
