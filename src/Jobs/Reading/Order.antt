-- ===== src/Jobs/Reading/Order.antt =====
-- `order_desc` is a permutation with the latest first.
use mathlib.Core.List.{Perm}
use mathlib.Core.List.Perm
use kra_analysis.Prelude.{
  ℕ, zero, suc, Option, none, some, List, [], ◌∷◌, true, false, ◌≡◌, refl, ◌∙◌, ap, All, arith,
  length, Bool-cases, inl, inr, take, drop,
}
use kra_analysis.Jobs.Queries.{is_later, insert_desc, order_desc}

module _ {ℓ} {A : Type ℓ} (time : A → Option ℕ) where
  -- Each row is no earlier than the next.
  abbrev pub IsDescending : List A → Type 0
  IsDescending [] = Unit
  IsDescending (x ∷ []) = Unit
  IsDescending (x ∷ y ∷ ys) = (is_later (time x) (time y) ≡ true) × IsDescending (y ∷ ys)

  insert_desc-perm : (x : A) (xs : List A) → Perm (insert_desc time x xs) (x ∷ xs)
  unfolding insert_desc
  insert_desc-perm x [] = Perm.refl (x ∷ [])
  insert_desc-perm x (y ∷ ys) = elim (Bool-cases (is_later (time x) (time y))) [
    | inl e ↦ rw e (Perm.refl (x ∷ y ∷ ys))
    | inr e ↦ rw e (Perm.trans (Perm.cons y (insert_desc-perm x ys)) (Perm.swap x y ys))
  ]

  pub order_desc-perm : (xs : List A) → Perm (order_desc time xs) xs
  unfolding order_desc
  order_desc-perm [] = Perm.refl []
  order_desc-perm (x ∷ xs) =
      Perm.trans (insert_desc-perm x (order_desc time xs)) (Perm.cons x (order_desc-perm xs))

  later_total : (a b : Option ℕ) → is_later a b ≡ false → is_later b a ≡ true
  later_total none b h = absurd (cc)
  later_total (some a) none h = refl
  later_total (some a) (some b) h = ground arith

  insert_desc-length : (x : A) (xs : List A) → length (insert_desc time x xs) ≡ suc (length xs)
  unfolding insert_desc
  insert_desc-length x [] = refl
  insert_desc-length x (y ∷ ys) = ground (arith, insert_desc-length x ys)

  pub length-order_desc : (xs : List A) → length (order_desc time xs) ≡ length xs
  unfolding order_desc
  length-order_desc [] = refl
  length-order_desc (x ∷ xs) =
      insert_desc-length x (order_desc time xs) ∙ ap suc (length-order_desc xs)

  insert_desc-All :
      (P : A → Type 0) (x : A) (xs : List A) → P x → All P xs → All P (insert_desc time x xs)
  unfolding insert_desc
  insert_desc-All P x [] p h = (p, tt)
  insert_desc-All P x (y ∷ ys) p h = elim (Bool-cases (is_later (time x) (time y))) [
    | inl e ↦ rw e (p, h)
    | inr e ↦ rw e (h.0, insert_desc-All P x ys p h.1)
  ]

  pub order_desc-All : (P : A → Type 0) (xs : List A) → All P xs → All P (order_desc time xs)
  unfolding order_desc
  order_desc-All P [] h = tt
  order_desc-All P (x ∷ xs) h =
      insert_desc-All P x (order_desc time xs) h.0 (order_desc-All P xs h.1)

  -- A row that is inserted below `y` among rows that come after `y` leaves the order.
  insert_below :
      (y x : A) (ys : List A)
      → is_later (time y) (time x) ≡ true
      → IsDescending (y ∷ ys)
      → IsDescending (y ∷ insert_desc time x ys)
  unfolding insert_desc
  insert_below y x [] l d = (l, tt)
  insert_below y x (z ∷ zs) l d = elim (Bool-cases (is_later (time x) (time z))) [
    | inl e ↦ rw e (l, (e, d.1))
    | inr e ↦ rw e (d.0, insert_below z x zs (later_total (time x) (time z) e) d.1)
  ]

  insert_desc-IsDescending :
      (x : A) (xs : List A) → IsDescending xs → IsDescending (insert_desc time x xs)
  unfolding insert_desc
  insert_desc-IsDescending x [] d = tt
  insert_desc-IsDescending x (y ∷ ys) d = elim (Bool-cases (is_later (time x) (time y))) [
    | inl e ↦ rw e (e, d)
    | inr e ↦ rw e (insert_below y x ys (later_total (time x) (time y) e) d)
  ]

  pub order_desc-IsDescending : (xs : List A) → IsDescending (order_desc time xs)
  unfolding order_desc
  order_desc-IsDescending [] = tt
  order_desc-IsDescending (x ∷ xs) =
      insert_desc-IsDescending x (order_desc time xs) (order_desc-IsDescending xs)

  pub drop-IsDescending : (n : ℕ) (xs : List A) → IsDescending xs → IsDescending (drop n xs)
  drop-IsDescending zero xs d = d
  drop-IsDescending (suc n) [] d = tt
  drop-IsDescending (suc n) (x ∷ []) d = drop-IsDescending n [] tt
  drop-IsDescending (suc n) (x ∷ y ∷ ys) d = drop-IsDescending n (y ∷ ys) d.1

  pub take-IsDescending : (n : ℕ) (xs : List A) → IsDescending xs → IsDescending (take n xs)
  take-IsDescending zero xs d = tt
  take-IsDescending (suc n) [] d = tt
  take-IsDescending (suc n) (x ∷ []) d = one n x
    where
      one : (n : ℕ) (x : A) → IsDescending (take (suc n) (x ∷ []))
      one zero x = tt
      one (suc n) x = tt
  take-IsDescending (suc zero) (x ∷ y ∷ ys) d = tt
  take-IsDescending (suc (suc n)) (x ∷ y ∷ ys) d = (d.0, take-IsDescending (suc n) (y ∷ ys) d.1)
