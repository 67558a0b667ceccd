-- ===== src/Prelude/Reordering.antt =====
-- Lists that differ in their order, and sorting those to the same list.
use mathlib.Core.Path.{◌≡◌, refl, sym, ◌∙◌, ap}
use mathlib.Core.Bool.{Bool, true}
use mathlib.Core.Logic.{◌⊎◌, inl, inr}
use mathlib.Core.List.{List, [], ◌∷◌}
use native.Mathlib.Omega.{arith}
use kra_analysis.Prelude.Lists.{All}
use kra_analysis.Prelude.Sorting.{IsStrictWeak, insert_sorted, sort_by}

-- Made of exchanges of neighbours.
pub data Reordered {ℓ} {A : Type ℓ} : List A → List A → Type ℓ where
  same : (xs : List A) → Reordered xs xs
  keep : (x : A) {xs ys : List A} → Reordered xs ys → Reordered (x ∷ xs) (x ∷ ys)
  swap : (x y : A) (xs : List A) → Reordered (x ∷ y ∷ xs) (y ∷ x ∷ xs)
  trans : {xs ys zs : List A} → Reordered xs ys → Reordered ys zs → Reordered xs zs

module _ {ℓ} {A : Type ℓ} (before : A → A → Bool) (order : IsStrictWeak before) where
  -- One is before the other.
  abbrev pub Differ : A → A → Type 0
  Differ x y = (before x y ≡ true) ⊎ (before y x ≡ true)

  abbrev pub AllDiffer : List A → Type 0
  AllDiffer [] = Unit
  AllDiffer (x ∷ xs) = All (λ y. Differ x y) xs × AllDiffer xs

  insert_sorted_swap :
      (x y : A) (zs : List A)
      → before x y ≡ true
      → insert_sorted before x (insert_sorted before y zs)
        ≡ insert_sorted before y (insert_sorted before x zs)
  unfolding insert_sorted
  insert_sorted_swap x y [] h = rw (h, order.asym x y h) refl
  insert_sorted_swap x y (z ∷ zs) h =
      ground (arith, order.asym x y h, order.weak x y z, insert_sorted_swap x y zs h)

  insert_sorted_comm :
      (x y : A) (zs : List A)
      → Differ x y
      → insert_sorted before x (insert_sorted before y zs)
        ≡ insert_sorted before y (insert_sorted before x zs)
  insert_sorted_comm x y zs (inl h) = insert_sorted_swap x y zs h
  insert_sorted_comm x y zs (inr h) = sym (insert_sorted_swap y x zs h)

  Differ-sym : (x y : A) → Differ x y → Differ y x
  Differ-sym x y (inl h) = inr h
  Differ-sym x y (inr h) = inl h

  module _ (P : A → Type 0) where
    Reordered-All : {xs ys : List A} → Reordered xs ys → All P xs → All P ys
    Reordered-All (same xs) h = h
    Reordered-All (keep x r) h = (h.0, Reordered-All r h.1)
    Reordered-All (swap x y xs) h = (h.1.0, (h.0, h.1.1))
    Reordered-All (trans r s) h = Reordered-All s (Reordered-All r h)

  Reordered-AllDiffer : {xs ys : List A} → Reordered xs ys → AllDiffer xs → AllDiffer ys
  Reordered-AllDiffer (same xs) h = h
  Reordered-AllDiffer (keep x r) h = (Reordered-All (Differ x) r h.0, Reordered-AllDiffer r h.1)
  Reordered-AllDiffer (swap x y xs) h = ((Differ-sym x y h.0.0, h.1.0), (h.0.1, h.1.1))
  Reordered-AllDiffer (trans r s) h = Reordered-AllDiffer s (Reordered-AllDiffer r h)

  -- Where all items differ, the sorted list does not depend on the order of the input.
  pub sort_by-Reordered :
      {xs ys : List A} → Reordered xs ys → AllDiffer xs → sort_by before xs ≡ sort_by before ys
  unfolding sort_by
  sort_by-Reordered (same xs) h = refl
  sort_by-Reordered (keep x r) h = ap (insert_sorted before x) (sort_by-Reordered r h.1)
  sort_by-Reordered (swap x y xs) h = insert_sorted_comm x y (sort_by before xs) h.0.0
  sort_by-Reordered (trans r s) h =
      sort_by-Reordered r h ∙ sort_by-Reordered s (Reordered-AllDiffer r h)
