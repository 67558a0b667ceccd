-- ===== src/Prelude/Members.antt =====
-- Membership in a list of numbers, and the pigeonhole principle.
use Prim.Native.Nat.{ℕ, suc, ◌≤◌}
use mathlib.Core.Path.{◌≡◌}
use mathlib.Core.Bool.{true}
use mathlib.Core.Logic.{◌≢◌}
use mathlib.Core.List.{List, [], ◌∷◌, ◌++◌}
use native.Mathlib.Omega.{arith}
use kra_analysis.Prelude.Tests.{if◌then◌else◌, ◌==◌}
use kra_analysis.Prelude.Lists.{All, length}
use kra_analysis.Prelude.Table.{member, Distinct}

pub member-append_left : (xs ys : List ℕ) (n : ℕ) → member xs n ≡ true → member (xs ++ ys) n ≡ true
member-append_left [] ys n h = absurd (cc)
member-append_left (x ∷ xs) ys n h = ground (arith, member-append_left xs ys n)

pub member-append_right : (xs ys : List ℕ) (n : ℕ) → member ys n ≡ true → member (xs ++ ys) n ≡ true
member-append_right [] ys n h = h
member-append_right (x ∷ xs) ys n h = ground (arith, member-append_right xs ys n h)

-- The list without the first occurrence.
remove : ℕ → List ℕ → List ℕ
remove n [] = []
remove n (x ∷ xs) = if x == n then xs else x ∷ remove n xs

remove-length : (n : ℕ) (xs : List ℕ) → member xs n ≡ true → suc (length (remove n xs)) ≡ length xs
unfolding remove
remove-length n [] h = absurd (cc)
remove-length n (x ∷ xs) h = ground (arith, remove-length n xs)

member-remove : (n m : ℕ) (xs : List ℕ) → m ≢ n → member xs m ≡ true → member (remove n xs) m ≡ true
unfolding remove
member-remove n m [] d h = absurd (cc)
member-remove n m (x ∷ xs) d h = ground (arith, member-remove n m xs d)

abbrev pub Members : List ℕ → List ℕ → Type 0
Members ys = All (λ n. member ys n ≡ true)

Members-remove :
    (n : ℕ) (xs ys : List ℕ) → All (λ m. m ≢ n) xs → Members ys xs → Members (remove n ys) xs
Members-remove n [] ys d h = tt
Members-remove n (m ∷ xs) ys d h = (member-remove n m ys d.0 h.0, Members-remove n xs ys d.1 h.1)

-- Different members of a list are no more than the list is long.
pub Members-length-le :
    (xs ys : List ℕ) → Distinct (λ (n : ℕ). n) xs → Members ys xs → length xs ≤ length ys
Members-length-le [] ys d h = omega arith
Members-length-le (x ∷ xs) ys d h = omega (
  arith,
  remove-length x ys h.0,
  Members-length-le xs (remove x ys) d.1 (Members-remove x xs ys d.0 h.1),
)
