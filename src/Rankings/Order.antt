-- ===== src/Rankings/Order.antt =====
-- The entries of rank_race_entries are the horses, in the order of their keys.
use kra_analysis.Prelude.{
  ℕ, zero, suc, List, [], ◌∷◌, map, All, length, ◌≡◌, refl, ap, ◌∙◌, arith, Bool, false, subst,
}
use mathlib.Core.List.{Perm}
use mathlib.Core.List.Perm
use kra_analysis.Prelude.Result.{ok}
use kra_analysis.Prelude.Value.{Fields}
use kra_analysis.Prelude.Integers.{tuple_lt, tuple_lt_asym, tuple_lt_weak}
use kra_analysis.Prelude.Sorting.{
  IsStrictWeak, IsSorted, sort_by, sort_by-All, sort_by-IsSorted, sort_by-length, sort_by-perm,
}
use kra_analysis.Rankings.Values.{Arithmetic}
use kra_analysis.Rankings.Key.{RuleValues, ModelScores, extract_rule_values, build_sort_key}
use kra_analysis.Rankings.Ranking.{
  RankedEntry, Prepared, prepare, key_before, entry, entries_from, rank_race_entries,
}

pub key_before-IsStrictWeak : IsStrictWeak key_before
key_before-IsStrictWeak = record {
  asym = λ x y. tuple_lt_asym x.key y.key;
  weak = λ x y z. tuple_lt_weak x.key y.key z.key;
}

abbrev pub horse_of : RankedEntry → Fields
horse_of e = e.horse

abbrev pub rank_of : RankedEntry → ℕ
rank_of e = e.rank

length-map : (f : Prepared → Fields) (xs : List Prepared) → length (map f xs) ≡ length xs
length-map f [] = refl
length-map f (x ∷ xs) = omega (arith, length-map f xs)

-- The order of two entries by their rule values.
abbrev pub entry_before : RankedEntry → RankedEntry → Bool
entry_before x y = tuple_lt (build_sort_key x.rule_values) (build_sort_key y.rule_values)

abbrev pub count_from : ℕ → ℕ → List ℕ
count_from i zero = []
count_from i (suc n) = i ∷ count_from (suc i) n

unfoldable pub prepared : Fields → RuleValues → Prepared
prepared horse v = record { key = build_sort_key v; horse = horse; rule_values = v }

module _ (a : Arithmetic) (scores : ModelScores) where
  -- The rule values of the horse can be computed.
  abbrev pub Extracts : Fields → Type 0
  Extracts horse = (v : RuleValues) × (extract_rule_values a scores horse ≡ ok v)

  abbrev IsPrepared : Prepared → Type 0
  IsPrepared x =
      (extract_rule_values a scores x.horse ≡ ok x.rule_values)
      × (x.key ≡ build_sort_key x.rule_values)

  prepares :
      (horses : List Fields)
      → All Extracts horses
      → (xs : List Prepared) × (prepare a scores horses ≡ ok xs)
        × (map (λ (x : Prepared). x.horse) xs ≡ horses)
        × All IsPrepared xs
  unfolding prepare prepared
  prepares [] h = ([], refl, refl, tt)
  prepares (horse ∷ horses) ((v, e), h) =
      let (xs, found, same, all) = prepares horses h in
      (prepared horse v ∷ xs, rw (e, found) refl, ap (◌∷◌ horse) same, ((e, refl), all))

  entries-horses :
      (i : ℕ) (xs : List Prepared)
      → map horse_of (entries_from a i xs) ≡ map (λ (x : Prepared). x.horse) xs
  entries-horses i [] = refl
  entries-horses i (x ∷ xs) = ap (◌∷◌ x.horse) (entries-horses (suc i) xs)

  entries-ranks :
      (i : ℕ) (xs : List Prepared) → map rank_of (entries_from a i xs) ≡ count_from i (length xs)
  entries-ranks i [] = refl
  entries-ranks i (x ∷ xs) = ap (◌∷◌ i) (entries-ranks (suc i) xs)

  entries-values :
      (i : ℕ) (xs : List Prepared)
      → All IsPrepared xs
      → All
          (λ e. extract_rule_values a scores (horse_of e) ≡ ok e.rule_values)
          (entries_from a i xs)
  entries-values i [] h = tt
  entries-values i (x ∷ xs) h = (h.0.0, entries-values (suc i) xs h.1)

  entries-below :
      (i : ℕ) (x : Prepared) (j : ℕ) (ys : List Prepared)
      → IsPrepared x
      → All IsPrepared ys
      → All (λ y. key_before y x ≡ false) ys
      → All (λ e. entry_before e (entry a i x) ≡ false) (entries_from a j ys)
  entries-below i x j [] p q h = tt
  entries-below i x j (y ∷ ys) p q h =
      (rw (q.0.1, p.1) at h.0, entries-below i x (suc j) ys p q.1 h.1)

  entries-IsSorted :
      (i : ℕ) (xs : List Prepared)
      → All IsPrepared xs
      → IsSorted key_before xs
      → IsSorted entry_before (entries_from a i xs)
  entries-IsSorted i [] p h = tt
  entries-IsSorted i (x ∷ xs) p h =
      (entries-below i x (suc i) xs p.0 p.1 h.0, entries-IsSorted (suc i) xs p.1 h.1)

  -- Where the rule values of every horse can be computed, rank_race_entries returns each horse
  -- once, with its own rule values, ranked from 1 on, and no entry stands behind one whose sort key
  -- is greater.
  pub rank_race_entries-IsSorted :
      (horses : List Fields)
      → All Extracts horses
      → (entries : List RankedEntry) × (rank_race_entries a horses scores ≡ ok entries)
        × Perm (map horse_of entries) horses
        × (map rank_of entries ≡ count_from 1 (length horses))
        × IsSorted entry_before entries
        × All (λ e. extract_rule_values a scores (horse_of e) ≡ ok e.rule_values) entries
  unfolding rank_race_entries
  rank_race_entries-IsSorted horses h =
      let (xs, found, same, all) = prepares horses h in
      let sorted = sort_by key_before xs in
      let all_sorted = sort_by-All key_before IsPrepared xs all in
      (
        entries_from a 1 sorted,
        rw found refl,
        rw (entries-horses 1 sorted) (
            subst (λ l. Perm (map (λ (x : Prepared). x.horse) sorted) l) same
              (Perm.map (λ (x : Prepared). x.horse) (sort_by-perm key_before xs))),
        entries-ranks 1 sorted
            ∙ ap (count_from 1) (
                omega (
                  arith,
                  sort_by-length key_before xs,
                  length-map (λ (x : Prepared). x.horse) xs,
                  ap length same,
                )),
        entries-IsSorted 1 sorted all_sorted
            (sort_by-IsSorted key_before key_before-IsStrictWeak xs),
        entries-values 1 sorted all_sorted,
      )
