-- ===== src/Prelude/Sorting.antt =====
-- Python's `sorted`, a stable sort, on a strict order that is given as a Boolean test.
use mathlib.Core.Path.{◌≡◌, refl, sym}
use mathlib.Core.Bool.{Bool, true, false}
use mathlib.Core.Logic.{◌≢◌, inl, inr}
use mathlib.Core.List.{List, [], ◌∷◌, Perm}
use mathlib.Core.List.Perm
use native.Mathlib.Omega.{arith}
use kra_analysis.Prelude.Tests.{if◌then◌else◌, Bool-cases}
use kra_analysis.Prelude.Lists.{All, length, take, All-take}
use kra_analysis.Prelude.Table.{Distinct}
use Prim.Native.Nat.{ℕ, zero, suc}

-- A strict order by a test: what is not before is transitive, and no two are before each other.
pub record IsStrictWeak {ℓ} {A : Type ℓ} (before : A → A → Bool) : Type ℓ where
  pub asym : (x y : A) → before x y ≡ true → before y x ≡ false
  pub weak : (x y z : A) → before y x ≡ false → before z y ≡ false → before z x ≡ false

module _ {ℓ} {A : Type ℓ} (before : A → A → Bool) where
  -- In front of the first item that is not before it, so that equal items keep their order.
  unfoldable pub insert_sorted : A → List A → List A
  insert_sorted x [] = x ∷ []
  insert_sorted x (y ∷ ys) = if before y x then y ∷ insert_sorted x ys else x ∷ y ∷ ys

  unfoldable pub sort_by : List A → List A
  unfolding insert_sorted
  sort_by [] = []
  sort_by (x ∷ xs) = insert_sorted x (sort_by xs)

  -- No item stands after one that it is before.
  abbrev pub IsSorted : List A → Type ℓ
  IsSorted [] = Unit
  IsSorted (x ∷ xs) = All (λ y. before y x ≡ false) xs × IsSorted xs

  insert_sorted-perm : (x : A) (xs : List A) → Perm (insert_sorted x xs) (x ∷ xs)
  unfolding insert_sorted
  insert_sorted-perm x [] = Perm.rfl
  insert_sorted-perm x (y ∷ ys) =
      elim (before y x)
        as (λ b. Perm (if b then y ∷ insert_sorted x ys else x ∷ y ∷ ys) (x ∷ y ∷ ys)) [
          | true ↦ Perm.trans (Perm.cons y (insert_sorted-perm x ys)) (Perm.swap x y ys)
          | false ↦ Perm.rfl
        ]

  pub sort_by-perm : (xs : List A) → Perm (sort_by xs) xs
  unfolding sort_by
  sort_by-perm [] = Perm.rfl
  sort_by-perm (x ∷ xs) =
      Perm.trans (insert_sorted-perm x (sort_by xs)) (Perm.cons x (sort_by-perm xs))

  insert_sorted-length : (x : A) (xs : List A) → length (insert_sorted x xs) ≡ suc (length xs)
  unfolding insert_sorted
  insert_sorted-length x [] = refl
  insert_sorted-length x (y ∷ ys) = ground (arith, insert_sorted-length x ys)

  pub sort_by-length : (xs : List A) → length (sort_by xs) ≡ length xs
  unfolding sort_by
  sort_by-length [] = refl
  sort_by-length (x ∷ xs) = omega (arith, insert_sorted-length x (sort_by xs), sort_by-length xs)

  module _ {κ} (P : A → Type κ) where
    insert_sorted-All : (x : A) (xs : List A) → P x → All P xs → All P (insert_sorted x xs)
    unfolding insert_sorted
    insert_sorted-All x [] p h = (p, tt)
    insert_sorted-All x (y ∷ ys) p h =
        elim (before y x) as (λ b. All P (if b then y ∷ insert_sorted x ys else x ∷ y ∷ ys)) [
          | true ↦ (h.0, insert_sorted-All x ys p h.1)
          | false ↦ (p, h)
        ]

    pub sort_by-All : (xs : List A) → All P xs → All P (sort_by xs)
    unfolding sort_by
    sort_by-All [] h = tt
    sort_by-All (x ∷ xs) h = insert_sorted-All x (sort_by xs) h.0 (sort_by-All xs h.1)

  module _ (name : A → ℕ) where
    insert_sorted-Distinct :
        (x : A) (xs : List A)
        → All (λ y. name y ≢ name x) xs
        → Distinct name xs
        → Distinct name (insert_sorted x xs)
    unfolding insert_sorted
    insert_sorted-Distinct x [] a h = (tt, tt)
    insert_sorted-Distinct x (y ∷ ys) a h =
        elim (before y x)
          as (λ b. Distinct name (if b then y ∷ insert_sorted x ys else x ∷ y ∷ ys)) [
            | true ↦ (
              insert_sorted-All (λ z. name z ≢ name y) x ys (λ e. a.0 (sym e)) h.0,
              insert_sorted-Distinct x ys a.1 h.1,
            )
            | false ↦ (a, h)
          ]

    pub sort_by-Distinct : (xs : List A) → Distinct name xs → Distinct name (sort_by xs)
    unfolding sort_by
    sort_by-Distinct [] h = tt
    sort_by-Distinct (x ∷ xs) h =
        insert_sorted-Distinct x (sort_by xs) (sort_by-All (λ y. name y ≢ name x) xs h.0)
          (sort_by-Distinct xs h.1)

  pub take-IsSorted : (n : ℕ) (xs : List A) → IsSorted xs → IsSorted (take n xs)
  take-IsSorted zero xs h = tt
  take-IsSorted (suc n) [] h = tt
  take-IsSorted (suc n) (x ∷ xs) h = (All-take _ n xs h.0, take-IsSorted n xs h.1)

  module _ (order : IsStrictWeak before) where
    -- What is not before `x` is not before what precedes `x` either.
    below :
        (x y : A)
        → before y x ≡ false
        → (zs : List A) → All (λ z. before z y ≡ false) zs
        → All (λ z. before z x ≡ false) zs
    below x y e [] h = tt
    below x y e (z ∷ zs) h = (order.weak x y z e h.0, below x y e zs h.1)

    insert_sorted-IsSorted : (x : A) (xs : List A) → IsSorted xs → IsSorted (insert_sorted x xs)
    unfolding insert_sorted
    insert_sorted-IsSorted x [] h = (tt, tt)
    insert_sorted-IsSorted x (y ∷ ys) h = elim (Bool-cases (before y x)) [
      | inl e ↦ rw e (
        insert_sorted-All (λ z. before z y ≡ false) x ys (order.asym y x e) h.0,
        insert_sorted-IsSorted x ys h.1,
      )
      | inr e ↦ rw e ((e, below x y e ys h.0), h)
    ]

    pub sort_by-IsSorted : (xs : List A) → IsSorted (sort_by xs)
    unfolding sort_by
    sort_by-IsSorted [] = tt
    sort_by-IsSorted (x ∷ xs) = insert_sorted-IsSorted x (sort_by xs) (sort_by-IsSorted xs)

  -- A sorted list is left as it is.
  module _ where
    insert_sorted-first :
        (x : A) (xs : List A) → All (λ y. before y x ≡ false) xs → insert_sorted x xs ≡ x ∷ xs
    unfolding insert_sorted
    insert_sorted-first x [] h = refl
    insert_sorted-first x (y ∷ ys) h = rw h.0 refl

    pub sort_by-eq_of_IsSorted : (xs : List A) → IsSorted xs → sort_by xs ≡ xs
    unfolding sort_by
    sort_by-eq_of_IsSorted [] h = refl
    sort_by-eq_of_IsSorted (x ∷ xs) h =
        rw (sort_by-eq_of_IsSorted xs h.1) (insert_sorted-first x xs h.0)
