-- ===== src/Rankings/Determinism.antt =====
-- The ranking of a race does not depend on the order in which its horses are listed.
use kra_analysis.Prelude.{List, [], ◌∷◌, All, ◌≡◌, ◌≢◌, refl, sym, ap, ◌∙◌, subst}
use kra_analysis.Prelude.Result.{ok, bind_ok, ok_inj}
use kra_analysis.Prelude.Value.{Fields}
use kra_analysis.Prelude.Integers.{tuple_lt_total}
use kra_analysis.Prelude.Reordering.{
  Reordered, AllDiffer, Differ, sort_by-Reordered, same, keep, swap, trans,
}
use kra_analysis.Rankings.Values.{Arithmetic}
use kra_analysis.Rankings.Key.{RuleValues, ModelScores, extract_rule_values}
use kra_analysis.Rankings.Ranking.{Prepared, prepare, key_before, entries_from, rank_race_entries}
use kra_analysis.Rankings.Order.{key_before-IsStrictWeak, prepared}

-- No two of the horses have the same sort key.
abbrev pub KeysDiffer : List Prepared → Type 0
KeysDiffer [] = Unit
KeysDiffer (x ∷ xs) = All (λ y. x.key ≢ y.key) xs × KeysDiffer xs

Differ-from :
    (x : Prepared) (xs : List Prepared)
    → All (λ y. x.key ≢ y.key) xs
    → All (λ y. Differ key_before key_before-IsStrictWeak x y) xs
Differ-from x [] h = tt
Differ-from x (y ∷ xs) h = (tuple_lt_total x.key y.key h.0, Differ-from x xs h.1)

all_differ : (xs : List Prepared) → KeysDiffer xs → AllDiffer key_before key_before-IsStrictWeak xs
all_differ [] h = tt
all_differ (x ∷ xs) h = (Differ-from x xs h.0, all_differ xs h.1)

module _ (a : Arithmetic) (scores : ModelScores) where
  -- The first horse and the rest are prepared one by one.
  prepare-cons :
      (horse : Fields) (horses : List Fields) (xs : List Prepared)
      → prepare a scores (horse ∷ horses) ≡ ok xs
      → (v : RuleValues) × (rest : List Prepared) × (extract_rule_values a scores horse ≡ ok v)
        × (prepare a scores horses ≡ ok rest)
        × (prepared horse v ∷ rest ≡ xs)
  unfolding prepare prepared
  prepare-cons horse horses xs e =
      let (v, found, e1) = bind_ok (extract_rule_values a scores horse) _ xs e in
      let (rest, prepared_rest, e2) = bind_ok (prepare a scores horses) _ xs e1 in
      (v, rest, found, prepared_rest, ok_inj _ xs e2)

  prepare_both :
      (horse : Fields) (horses : List Fields) (v : RuleValues) (rest : List Prepared)
      → extract_rule_values a scores horse ≡ ok v
      → prepare a scores horses ≡ ok rest
      → prepare a scores (horse ∷ horses) ≡ ok (prepared horse v ∷ rest)
  unfolding prepare prepared
  prepare_both horse horses v rest e k = rw (e, k) refl

  prepare-Reordered :
      {horses others : List Fields} (xs : List Prepared)
      → Reordered horses others
      → prepare a scores horses ≡ ok xs
      → (ys : List Prepared) × (prepare a scores others ≡ ok ys) × Reordered xs ys
  prepare-Reordered xs (same horses) e = (xs, e, same xs)
  prepare-Reordered xs (keep horse {xs = horses} {ys = others} r) e =
      let (v, rest, found, known, whole) = prepare-cons horse horses xs e in
      let (ys, known', r') = prepare-Reordered rest r known in
      (
        prepared horse v ∷ ys,
        prepare_both horse others v ys found known',
        subst (λ l. Reordered l (prepared horse v ∷ ys)) whole (keep (prepared horse v) r'),
      )
  prepare-Reordered xs (swap horse other horses) e =
      let (v, rest, found, known, whole) = prepare-cons horse (other ∷ horses) xs e in
      let (w, rest', found', known', whole') = prepare-cons other horses rest known in
      (
        prepared other w ∷ prepared horse v ∷ rest',
        prepare_both other (horse ∷ horses) w (prepared horse v ∷ rest') found'
            (prepare_both horse horses v rest' found known'),
        subst (λ l. Reordered l (prepared other w ∷ prepared horse v ∷ rest'))
            (ap (◌∷◌ (prepared horse v)) whole' ∙ whole)
            (swap (prepared horse v) (prepared other w) rest'),
      )
  prepare-Reordered xs (trans r s) e =
      let (ys, known, r') = prepare-Reordered xs r e in
      let (zs, known', s') = prepare-Reordered ys s known in (zs, known', trans r' s')

  -- Where the sort keys of all horses can be computed and no two are the same, rank_race_entries
  -- returns the same entries for the horses in any other order.
  pub rank_race_entries-Reordered :
      (horses others : List Fields) (xs : List Prepared)
      → Reordered horses others
      → prepare a scores horses ≡ ok xs
      → KeysDiffer xs
      → rank_race_entries a others scores ≡ rank_race_entries a horses scores
  unfolding rank_race_entries
  rank_race_entries-Reordered horses others xs r e d =
      let (ys, known, r') = prepare-Reordered xs r e in
      rw (e, known)
        (ap (λ l. ok (entries_from a 1 l))
          (sym (sort_by-Reordered key_before key_before-IsStrictWeak r' (all_differ xs d))))
