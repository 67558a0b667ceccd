-- ===== src/Predictions/Guard/Filling.antt =====
-- The repair loop: what it adds, and that it ends with three horses or the whole race card.
use kra_analysis.Prelude.{
  ℕ, ◌+◌, ◌<◌, ◌≤◌, List, [], ◌∷◌, ◌++◌, map, true, false, All, All-append, length, length-append,
  ◌==◌, ◌≡◌, ◌⊎◌, refl, sym, ◌∙◌, arith, Bool-cases, inl, inr,
}
use mathlib.Core.List.{append_assoc, map-append, append-nil}
use kra_analysis.Prelude.Table.{Distinct, append-Distinct, member-Apart}
use kra_analysis.Prelude.Members.{Members, member-append_left, member-append_right}
use kra_analysis.Predictions.Lookups.{Card}
use kra_analysis.Predictions.Supplements.{in_card}
use kra_analysis.Predictions.Guard.Reading.{FinalCandidate}
use kra_analysis.Predictions.Guard.Output.{
  Repair, add_horse, number_of, is_selected, fill_from_card, fallback,
}

module _ (card : Card) where
  abbrev pub IsRunner : ℕ → Type 0
  IsRunner n = (0 < n) × (in_card card n ≡ true)

  -- Different horses of the race card.
  abbrev pub AreFinal : List FinalCandidate → Type 0
  AreFinal cs = All (λ c. IsRunner (number_of c)) cs × Distinct number_of cs

  pub record IsFilled (ns : List ℕ) (r s : Repair) : Type 0 where
    pub extra : List FinalCandidate
    pub kept : s.final_candidates ≡ r.final_candidates ++ extra
    pub final : AreFinal s.final_candidates
    pub at_most_three : length s.final_candidates ≤ 3
    pub complete : (length s.final_candidates ≡ 3) ⊎ Members (map number_of s.final_candidates) ns

  selected_later :
      (n : ℕ) (cs ds extra : List FinalCandidate)
      → ds ≡ cs ++ extra
      → is_selected cs n ≡ true
      → is_selected ds n ≡ true
  selected_later n cs ds extra e h =
      rw (e, map-append number_of cs extra)
        (member-append_left (map number_of cs) (map number_of extra) n h)

  and_selected :
      (n : ℕ) (ns : List ℕ) (ds : List FinalCandidate)
      → is_selected ds n ≡ true
      → (length ds ≡ 3) ⊎ Members (map number_of ds) ns
      → (length ds ≡ 3) ⊎ Members (map number_of ds) (n ∷ ns)
  and_selected n ns ds h (inl e) = inl e
  and_selected n ns ds h (inr m) = inr (h, m)

  abbrev added : ℕ → Repair → FinalCandidate
  added n r = fallback (length r.final_candidates + 1) n

  -- Another horse of the card.
  add_horse-AreFinal :
      (n : ℕ) (r : Repair)
      → IsRunner n
      → AreFinal r.final_candidates
      → is_selected r.final_candidates n ≡ false
      → AreFinal (add_horse n r).final_candidates
  unfolding add_horse
  add_horse-AreFinal n r p h e = (
    All-append (λ c. IsRunner (number_of c)) r.final_candidates (added n r ∷ []) h.0 (p, tt),
    append-Distinct number_of r.final_candidates (added n r) h.1
        (member-Apart number_of r.final_candidates (added n r) e),
  )

  add_horse-selected : (n : ℕ) (r : Repair) → is_selected (add_horse n r).final_candidates n ≡ true
  unfolding add_horse fallback
  add_horse-selected n r =
      rw (map-append number_of r.final_candidates (added n r ∷ []))
        (member-append_right (map number_of r.final_candidates) (n ∷ []) n (ground arith))

  add_horse-length :
      (n : ℕ) (r : Repair) → length (add_horse n r).final_candidates ≡ length r.final_candidates + 1
  unfolding add_horse
  add_horse-length n r = length-append r.final_candidates (added n r ∷ [])

  passed-IsFilled :
      (n : ℕ) (ns : List ℕ) (r s : Repair)
      → is_selected r.final_candidates n ≡ true
      → IsFilled ns r s
      → IsFilled (n ∷ ns) r s
  passed-IsFilled n ns r s e f = record {
    extra = f.extra;
    kept = f.kept;
    final = f.final;
    at_most_three = f.at_most_three;
    complete =
        and_selected n ns s.final_candidates
          (selected_later n r.final_candidates s.final_candidates f.extra f.kept e) f.complete;
  }

  last-IsFilled :
      (n : ℕ) (ns : List ℕ) (r : Repair)
      → AreFinal (add_horse n r).final_candidates
      → length (add_horse n r).final_candidates ≡ 3
      → IsFilled (n ∷ ns) r (add_horse n r)
  unfolding add_horse
  last-IsFilled n ns r h e = record {
    extra = added n r ∷ [];
    kept = refl;
    final = h;
    at_most_three = omega arith;
    complete = inl e;
  }

  further-IsFilled :
      (n : ℕ) (ns : List ℕ) (r s : Repair) → IsFilled ns (add_horse n r) s → IsFilled (n ∷ ns) r s
  unfolding add_horse
  further-IsFilled n ns r s f = record {
    extra = added n r ∷ f.extra;
    kept = f.kept ∙ append_assoc r.final_candidates (added n r ∷ []) f.extra;
    final = f.final;
    at_most_three = f.at_most_three;
    complete =
        and_selected n ns s.final_candidates
          (selected_later n (add_horse n r).final_candidates s.final_candidates f.extra f.kept
            (add_horse-selected n r))
          f.complete;
  }

  pub fill_from_card-IsFilled :
      (ns : List ℕ) (r : Repair)
      → All IsRunner ns
      → AreFinal r.final_candidates
      → length r.final_candidates < 3
      → IsFilled ns r (fill_from_card ns r)
  unfolding fill_from_card
  fill_from_card-IsFilled [] r p h l = record {
    extra = [];
    kept = sym (append-nil r.final_candidates);
    final = h;
    at_most_three = omega arith;
    complete = inr tt;
  }
  fill_from_card-IsFilled (n ∷ ns) r p h l = elim (Bool-cases (is_selected r.final_candidates n)) [
    | inl e ↦ rw e (passed-IsFilled n ns r _ e (fill_from_card-IsFilled ns r p.1 h l))
    | inr e ↦
        let more = add_horse-AreFinal n r p.0 h e in
        rw e (elim (Bool-cases (length (add_horse n r).final_candidates == 3)) [
          | inl three ↦ rw three (last-IsFilled n ns r more (ground arith))
          | inr fewer ↦ rw fewer (
              further-IsFilled n ns r _ (
                fill_from_card-IsFilled ns (add_horse n r) p.1 more
                  (ground (arith, add_horse-length n r))))
        ])
  ]
