-- ===== src/Prelude/Integers.antt =====
-- Python's comparison of integers, of finite floats in units and of tuples of those.
use Prim.Native.Nat.{zero, suc, ◌+◌, ◌-◌}
use mathlib.Core.Path.{◌≡◌, refl}
use mathlib.Core.Bool.{Bool, true, false}
use mathlib.Core.Logic.{◌≢◌, ◌⊎◌, inl, inr}
use mathlib.Core.List.{List, [], ◌∷◌}
use native.Mathlib.Omega.{arith}
use kra_analysis.Prelude.Tests.{if◌then◌else◌, ltb, Bool-cases}
use kra_analysis.Prelude.Value.{ℤ, pos, negsuc}

abbrev pub ltz : ℤ → ℤ → Bool
ltz (pos a) (pos b) = ltb a b
ltz (pos a) (negsuc b) = false
ltz (negsuc a) (pos b) = true
ltz (negsuc a) (negsuc b) = ltb b a

abbrev pub negate : ℤ → ℤ
negate (pos zero) = pos 0
negate (pos (suc n)) = negsuc n
negate (negsuc n) = pos (suc n)

infixl 65 ◌+ℤ◌
unfoldable pub ◌+ℤ◌ : ℤ → ℤ → ℤ
pos a +ℤ pos b = pos (a + b)
pos a +ℤ negsuc b = if ltb b a then pos (a - b - 1) else negsuc (b - a)
negsuc a +ℤ pos b = if ltb a b then pos (b - a - 1) else negsuc (a - b)
negsuc a +ℤ negsuc b = negsuc (a + b + 1)

-- The first components that differ decide.
unfoldable pub tuple_lt : List ℤ → List ℤ → Bool
tuple_lt [] [] = false
tuple_lt [] (y ∷ ys) = true
tuple_lt (x ∷ xs) [] = false
tuple_lt (x ∷ xs) (y ∷ ys) = if ltz x y then true else if ltz y x then false else tuple_lt xs ys

ltz_asym : (x y : ℤ) → ltz x y ≡ true → ltz y x ≡ false
ltz_asym (pos a) (pos b) h = ground arith
ltz_asym (pos a) (negsuc b) h = absurd (cc)
ltz_asym (negsuc a) (pos b) h = refl
ltz_asym (negsuc a) (negsuc b) h = ground arith

ltz_weak : (x y z : ℤ) → ltz y x ≡ false → ltz z y ≡ false → ltz z x ≡ false
ltz_weak (pos a) (pos b) (pos c) h k = ground arith
ltz_weak (pos a) (pos b) (negsuc c) h k = ground arith
ltz_weak (pos a) (negsuc b) z h k = ground arith
ltz_weak (negsuc a) (pos b) (pos c) h k = ground arith
ltz_weak (negsuc a) (pos b) (negsuc c) h k = ground arith
ltz_weak (negsuc a) (negsuc b) (pos c) h k = ground arith
ltz_weak (negsuc a) (negsuc b) (negsuc c) h k = ground arith

-- Integers neither of which is less are the same.
pub ltz-eq : (x y : ℤ) → ltz x y ≡ false → ltz y x ≡ false → x ≡ y
ltz-eq (pos a) (pos b) h k = ground arith
ltz-eq (pos a) (negsuc b) h k = ground arith
ltz-eq (negsuc a) (pos b) h k = ground arith
ltz-eq (negsuc a) (negsuc b) h k = ground arith

pub tuple_lt_asym : (x y : List ℤ) → tuple_lt x y ≡ true → tuple_lt y x ≡ false
unfolding tuple_lt
tuple_lt_asym [] [] h = refl
tuple_lt_asym [] (y ∷ ys) h = refl
tuple_lt_asym (x ∷ xs) [] h = ground arith
tuple_lt_asym (x ∷ xs) (y ∷ ys) h = ground (arith, ltz_asym x y, tuple_lt_asym xs ys)

pub tuple_lt_weak :
    (x y z : List ℤ) → tuple_lt y x ≡ false → tuple_lt z y ≡ false → tuple_lt z x ≡ false
unfolding tuple_lt
tuple_lt_weak x [] [] h k = h
tuple_lt_weak x [] (c ∷ z) h k = ground arith
tuple_lt_weak [] (b ∷ y) [] h k = ground arith
tuple_lt_weak (a ∷ x) (b ∷ y) [] h k = ground arith
tuple_lt_weak [] (b ∷ y) (c ∷ z) h k = refl
tuple_lt_weak (a ∷ x) (b ∷ y) (c ∷ z) h k = ground (
  arith,
  ltz_asym a b,
  ltz_asym b c,
  ltz_asym a c,
  ltz_weak a b c,
  ltz_weak c b a,
  ltz_weak b a c,
  ltz_weak a c b,
  tuple_lt_weak x y z,
)

-- Tuples neither of which is less are the same.
tuple_lt-eq : (x y : List ℤ) → tuple_lt x y ≡ false → tuple_lt y x ≡ false → x ≡ y
unfolding tuple_lt
tuple_lt-eq [] [] h k = refl
tuple_lt-eq [] (b ∷ y) h k = absurd (cc)
tuple_lt-eq (a ∷ x) [] h k = absurd (cc)
tuple_lt-eq (a ∷ x) (b ∷ y) h k = ground (arith, ltz-eq a b, tuple_lt-eq x y)

pub tuple_lt_total : (x y : List ℤ) → x ≢ y → (tuple_lt x y ≡ true) ⊎ (tuple_lt y x ≡ true)
tuple_lt_total x y d = elim (Bool-cases (tuple_lt x y)) [
  | inl e ↦ inl e
  | inr e ↦ elim (Bool-cases (tuple_lt y x)) [
    | inl e' ↦ inr e'
    | inr e' ↦ absurd (d (tuple_lt-eq x y e e'))
  ]
]

pub tuple_lt-ne : (x y : List ℤ) → (tuple_lt x y ≡ true) ⊎ (tuple_lt y x ≡ true) → x ≢ y
tuple_lt-ne x y (inl h) e = let k = tuple_lt_asym x y h in absurd (cc)
tuple_lt-ne x y (inr h) e = let k = tuple_lt_asym y x h in absurd (cc)
