-- ===== src/Prelude/Table.antt =====
-- Python's `dict` and `set` with positive integers for keys, in insertion order.
use Prim.Native.Nat.{ℕ, zero, suc}
use mathlib.Core.Path.{◌≡◌, refl, sym, ◌∙◌, subst}
use mathlib.Core.Bool.{Bool, true, false, ◌||◌}
use mathlib.Core.Option.{Option, none, some}
use mathlib.Core.List.{List, [], ◌∷◌, ◌++◌, map}
use native.Mathlib.Omega.{arith}
use kra_analysis.Prelude.Tests.{if◌then◌else◌, ◌==◌, Bool-cases}
use kra_analysis.Prelude.Lists.{All, take, keep, All-take, All-keep, All-append}
use mathlib.Core.Logic.{◌≢◌, inl, inr}
use kra_analysis.Prelude.Dict.{some_eq}

abbrev pub Table {ℓ} : Type ℓ → Type ℓ
Table V = List (ℕ × V)

-- `k in set`
abbrev pub member : List ℕ → ℕ → Bool
member [] k = false
member (j ∷ js) k = j == k || member js k

module _ {ℓ} {V : Type ℓ} where
  -- table.get(k)
  unfoldable pub find : Table V → ℕ → Option V
  find [] k = none
  find ((j, v) ∷ t) k = if j == k then some v else find t k

  -- table[k] = v: a key that is there keeps its place
  unfoldable pub store : Table V → ℕ → V → Table V
  store [] k v = (k, v) ∷ []
  store ((j, w) ∷ t) k v = if j == k then (j, v) ∷ t else (j, w) ∷ store t k v

  -- table.values()
  unfoldable pub values : Table V → List V
  values [] = []
  values ((j, v) ∷ t) = v ∷ values t

  pub find-store :
      (t : Table V) (k j : ℕ) (v : V) → find (store t k v) j ≡ (if k == j then some v else find t j)
  unfolding find store
  find-store [] k j v = refl
  find-store ((i, w) ∷ t) k j v = ground (arith, find-store t k j v)

-- Of items that are named by a number, no two have the same.
module _ {ℓ} {A : Type ℓ} (name : A → ℕ) where
  abbrev pub Distinct : List A → Type ℓ
  Distinct [] = Unit
  Distinct (x ∷ xs) = All (λ y. name y ≢ name x) xs × Distinct xs

module _ {ℓ} {V : Type ℓ} where
  -- What holds of every entry holds of the one that is found, and of a table with one more.
  module _ {κ} (Q : ℕ → V → Type κ) where
    pub find-All :
        (t : Table V) (k : ℕ) {v : V} → All (λ e. Q e.0 e.1) t → find t k ≡ some v → Q k v
    unfolding find
    find-All [] k h e = absurd (cc)
    find-All ((j, w) ∷ t) k {v} h e = elim (Bool-cases (j == k)) [
      | inl same ↦
          let key : j ≡ k = ground arith in
          let value : w ≡ v = some_eq w v (rw same at e) in
          subst (λ i. Q i v) key (subst (Q j) value h.0)
      | inr different ↦ find-All t k h.1 (rw different at e)
    ]

    pub store-All :
        (t : Table V) (k : ℕ) (v : V)
        → All (λ e. Q e.0 e.1) t
        → Q k v
        → All (λ e. Q e.0 e.1) (store t k v)
    unfolding store
    store-All [] k v h q = (q, tt)
    store-All ((j, w) ∷ t) k v h q = elim (Bool-cases (j == k)) [
      | inl same ↦ let key : k ≡ j = ground arith in rw same (subst (λ i. Q i v) key q, h.1)
      | inr different ↦ rw different (h.0, store-All t k v h.1 q)
    ]

  abbrev pub Keyed : Table V → Type ℓ
  Keyed = Distinct (λ (e : ℕ × V). e.0)

  pub store-Keyed : (t : Table V) (k : ℕ) (v : V) → Keyed t → Keyed (store t k v)
  unfolding store
  store-Keyed [] k v h = (tt, tt)
  store-Keyed ((j, w) ∷ t) k v h = elim (Bool-cases (j == k)) [
    | inl same ↦ rw same (h.0, h.1)
    | inr different ↦
        let apart : k ≢ j = λ e. absurd (ground arith) in
        rw different (store-All (λ i _. i ≢ j) t k v h.0 apart, store-Keyed t k v h.1)
  ]

  module _ {κ} (P : V → Type κ) where
    pub values-All : (t : Table V) → All (λ e. P e.1) t → All P (values t)
    unfolding values
    values-All [] h = tt
    values-All ((j, v) ∷ t) h = (h.0, values-All t h.1)

  module _ (name : V → ℕ) where
    abbrev pub Named : Table V → Type 0
    Named t = All (λ e. name e.1 ≡ e.0) t

    values-apart :
        (t : Table V) (k : ℕ) → Named t → All (λ e. e.0 ≢ k) t → All (λ v. name v ≢ k) (values t)
    unfolding values
    values-apart [] k h d = tt
    values-apart ((j, v) ∷ t) k h d = (λ e. d.0 (sym h.0 ∙ e), values-apart t k h.1 d.1)

    pub values-Distinct : (t : Table V) → Named t → Keyed t → Distinct name (values t)
    unfolding values
    values-Distinct [] h d = tt
    values-Distinct ((j, v) ∷ t) h d = (
      subst (λ i. All (λ w. name w ≢ i) (values t)) (sym h.0) (values-apart t j h.1 d.0),
      values-Distinct t h.1 d.1,
    )

-- Parts of a list without repetition, and two such lists in a row.
module _ {ℓ} {A : Type ℓ} (name : A → ℕ) where
  pub take-Distinct : (n : ℕ) (xs : List A) → Distinct name xs → Distinct name (take n xs)
  take-Distinct zero xs h = tt
  take-Distinct (suc n) [] h = tt
  take-Distinct (suc n) (x ∷ xs) h = (All-take _ n xs h.0, take-Distinct n xs h.1)

  pub keep-Distinct :
      (test : A → Bool) (xs : List A) → Distinct name xs → Distinct name (keep test xs)
  keep-Distinct test [] h = tt
  keep-Distinct test (x ∷ xs) h =
      elim (test x) as (λ b. Distinct name (if b then x ∷ keep test xs else keep test xs)) [
        | true ↦ (All-keep _ test xs h.0, keep-Distinct test xs h.1)
        | false ↦ keep-Distinct test xs h.1
      ]

  -- No item of one list is named as the given item.
  abbrev pub Apart : List A → A → Type 0
  Apart xs y = All (λ x. name x ≢ name y) xs

  pub append-Distinct :
      (xs : List A) (y : A) → Distinct name xs → Apart xs y → Distinct name (xs ++ y ∷ [])
  append-Distinct [] y h apart = (tt, tt)
  append-Distinct (x ∷ xs) y h apart = (
    All-append (λ z. name z ≢ name x) xs (y ∷ []) h.0 ((λ e. apart.0 (sym e)), tt),
    append-Distinct xs y h.1 apart.1,
  )

  pub member-Apart : (xs : List A) (y : A) → member (map name xs) (name y) ≡ false → Apart xs y
  member-Apart [] y h = tt
  member-Apart (x ∷ xs) y h = ((λ e. absurd (ground arith)), member-Apart xs y (ground arith))
