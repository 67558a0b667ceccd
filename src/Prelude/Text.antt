-- ===== src/Prelude/Text.antt =====
-- Python's `str` of a non-negative integer, and joined texts.
use Prim.Native.Nat.{ℕ, zero, suc, ◌/◌, ◌%◌}
use kra_analysis.Prelude.Tests.{ltb, ◌==◌, if◌then◌else◌}
use Prim.Native.String.{String}
pub use Prim.Native.String.{◌++◌ as ◌+++◌}

abbrev digit : ℕ → String
digit d =
    if d == 0
    then "0"
    else if d == 1
    then "1"
    else if d == 2
    then "2"
    else if d == 3
    then "3"
    else if d == 4
    then "4"
    else if d == 5
    then "5"
    else if d == 6
    then "6"
    else if d == 7
    then "7"
    else if d == 8
    then "8"
    else "9"

-- On as much fuel as there may be digits.
digits_from : ℕ → ℕ → String → String
digits_from zero n text = text
digits_from (suc fuel) n text =
    let shown = digit (n % 10) +++ text in
    let longer = digits_from fuel (n / 10) shown in if ltb n 10 then shown else longer

unfoldable pub show_ℕ : ℕ → String
unfolding digits_from
show_ℕ n = digits_from (suc n) n ""
