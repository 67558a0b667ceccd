-- ===== src/Predictions/Merging.antt =====
-- The tables of candidates: one entry for each horse, under its number, and only horses of the card.
use kra_analysis.Prelude.{
  ℕ, suc, ◌<◌, String, List, [], ◌∷◌, Option, none, some, true, false, if◌then◌else◌, Bool-cases,
  Option-cases, All, ◌≡◌, refl, inl, inr, arith, str_eq,
}
use kra_analysis.Prelude.Result.{ok, Outcome, Outcome-bind}
use kra_analysis.Prelude.Value.{Value, null, obj, arr, str, float, int, bool, ℤ}
use kra_analysis.Prelude.Objects.{entries}
use kra_analysis.Prelude.Table.{Table, find, find-All, store-All, store-Keyed, Keyed}
use kra_analysis.Predictions.Conversions.{
  Platform, Raised, Extracted, as_sequence, coerce_positive_chul_no, coerce_score,
  extract_candidate_fields,
}
use kra_analysis.Predictions.Candidate.{
  Candidate, register, merge_duplicate_candidate, merge_into, before,
}
use kra_analysis.Predictions.Lookups.{Scores, Card}
use kra_analysis.Predictions.Supplements.{
  in_card, register_number, supplement_items, register_supplement_sequence, register_scored,
  supplement_pairs, register_supplement_mapping,
}
use kra_analysis.Predictions.Converts.{
  IsPositive, Converts, ConvertsText, as_sequence-Converts, when_sequence-Outcome, coerce-Outcome,
  score-Outcome, extract-Outcome, entries-Converts,
}

module _ (card : Card) where
  -- A horse that may be predicted, with its place in a source that is named.
  abbrev pub RunsIn : Candidate → Type 0
  RunsIn c =
      (0 < c.chul_no)
      × (in_card card c.chul_no ≡ true)
      × (0 < c.raw_index)
      × (str_eq c.source_field "" ≡ false)

  abbrev pub IsFiled : ℕ → Candidate → Type 0
  IsFiled n c = (c.chul_no ≡ n) × RunsIn c

  abbrev pub IsMerged : Table Candidate → Type 0
  IsMerged t = All (λ e. IsFiled e.0 e.1) t × Keyed t

  merge-IsFiled :
      (n : ℕ) (existing incoming : Candidate)
      → IsFiled n existing
      → IsFiled n incoming
      → IsFiled n (merge_duplicate_candidate existing incoming)
  unfolding merge_duplicate_candidate
  merge-IsFiled n existing incoming h k =
      elim (before incoming existing)
        as (λ b.
          IsFiled n (if b then merge_into incoming existing else merge_into existing incoming)) [
            | true ↦ k
            | false ↦ h
          ]

  pub register-IsMerged :
      (t : Table Candidate) (c : Candidate) → IsMerged t → RunsIn c → IsMerged (register t c)
  unfolding register
  register-IsMerged t c h r = elim (Option-cases (find t c.chul_no)) [
    | inl e ↦ rw e (store-All IsFiled t c.chul_no c h.0 (refl, r), store-Keyed t c.chul_no c h.1)
    | inr (old, e) ↦
        let filed = merge-IsFiled c.chul_no old c (find-All IsFiled t c.chul_no h.0 e) (refl, r) in
        rw e (
          store-All IsFiled t c.chul_no (merge_duplicate_candidate old c) h.0 filed,
          store-Keyed t c.chul_no (merge_duplicate_candidate old c) h.1,
        )
  ]

  -- A candidate is registered where its horse runs.
  pub register_if-IsMerged :
      (t : Table Candidate) (c : Candidate)
      → IsMerged t
      → 0 < c.chul_no
      → 0 < c.raw_index
      → str_eq c.source_field "" ≡ false
      → IsMerged (if in_card card c.chul_no then register t c else t)
  register_if-IsMerged t c h p i s = elim (Bool-cases (in_card card c.chul_no)) [
    | inl e ↦ rw e (register-IsMerged t c h (p, e, i, s))
    | inr e ↦ rw e h
  ]

  register_number-IsMerged :
      (source : String) (scores : Scores) (i : ℕ) (e : Extracted) (t : Table Candidate)
      (n : Option ℕ)
      → IsMerged t
      → IsPositive n
      → 0 < i
      → str_eq source "" ≡ false
      → IsMerged (register_number source scores card i e t n)
  unfolding register_number
  register_number-IsMerged source scores i e t none h k q s = h
  register_number-IsMerged source scores i e t (some n) h k q s = register_if-IsMerged t _ h k q s

  register_scored-IsMerged :
      (source : String) (i : ℕ) (t : Table Candidate) (n : Option ℕ) (z : Option ℤ)
      → IsMerged t
      → IsPositive n
      → 0 < i
      → str_eq source "" ≡ false
      → IsMerged (register_scored source card i t n z)
  unfolding register_scored
  register_scored-IsMerged source i t none z h k q s = h
  register_scored-IsMerged source i t (some n) none h k q s = h
  register_scored-IsMerged source i t (some n) (some z) h k q s = register_if-IsMerged t _ h k q s

  module _ (p : Platform) (R : Raised → Type 0) where
    supplement_items-Outcome :
        (source : String) (scores : Scores) (i : ℕ) (items : List Value) (t : Table Candidate)
        → All (Converts p R) items
        → IsMerged t
        → 0 < i
        → str_eq source "" ≡ false
        → Outcome R IsMerged (supplement_items p source scores card i items t)
    unfolding supplement_items
    supplement_items-Outcome source scores i [] t h m q s = m
    supplement_items-Outcome source scores i (item ∷ items) t h m q s =
        Outcome-bind R IsMerged (extract_candidate_fields p item) _ (extract-Outcome p R item h.0)
          (λ e he.
            Outcome-bind R IsMerged (coerce_positive_chul_no p e.0) _ (coerce-Outcome p R e.0 he)
              (λ n hn.
                supplement_items-Outcome source scores (suc i) items
                  (register_number source scores card i e t n) h.1
                  (register_number-IsMerged source scores i e t n m hn q s) (omega arith) s))

    pub sequence-Outcome :
        (source : String) (scores : Scores) (v : Value) (t : Table Candidate)
        → Converts p R v
        → IsMerged t
        → str_eq source "" ≡ false
        → Outcome R IsMerged (register_supplement_sequence p source scores card v t)
    unfolding register_supplement_sequence
    sequence-Outcome source scores v t h m s =
        when_sequence-Outcome p R IsMerged (as_sequence v) (ok t) _ (as_sequence-Converts p R v h) m
          (λ l hl. supplement_items-Outcome source scores 1 l t hl m (omega arith) s)

    supplement_pairs-Outcome :
        (source : String) (i : ℕ) (pairs : List (String × Value)) (t : Table Candidate)
        → All (λ e. ConvertsText p R e.0 × Converts p R e.1) pairs
        → IsMerged t
        → 0 < i
        → str_eq source "" ≡ false
        → Outcome R IsMerged (supplement_pairs p source card i pairs t)
    unfolding supplement_pairs
    supplement_pairs-Outcome source i [] t h m q s = m
    supplement_pairs-Outcome source i ((k, v) ∷ pairs) t h m q s =
        Outcome-bind R IsMerged (coerce_positive_chul_no p (str k)) _ h.0.0 (λ n hn.
          Outcome-bind R IsMerged (coerce_score p v) _ (score-Outcome p R v h.0.1) (λ z _.
            supplement_pairs-Outcome source (suc i) pairs (register_scored source card i t n z) h.1
              (register_scored-IsMerged source i t n z m hn q s) (omega arith) s))

    pub mapping-Outcome :
        (source : String) (v : Value) (t : Table Candidate)
        → Converts p R v
        → IsMerged t
        → str_eq source "" ≡ false
        → Outcome R IsMerged (register_supplement_mapping p source card v t)
    unfolding register_supplement_mapping Converts
    mapping-Outcome source (obj f) t h m e =
        supplement_pairs-Outcome source 1 (entries f) t (entries-Converts p R f h) m (omega arith) e
    mapping-Outcome source null t h m e = m
    mapping-Outcome source (arr xs) t h m e = m
    mapping-Outcome source (str s) t h m e = m
    mapping-Outcome source (float x) t h m e = m
    mapping-Outcome source (int z) t h m e = m
    mapping-Outcome source (bool b) t h m e = m
