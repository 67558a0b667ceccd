-- ===== src/Predictions/Converts.antt =====
-- Payloads whose texts and integers can be converted, and the reading of numbers and scores of those.
use kra_analysis.Prelude.{
  ℕ, zero, suc, ◌<◌, String, List, [], ◌∷◌, Option, none, some, true, false, if◌then◌else◌,
  Bool-cases, Option-cases, ap, ◌==◌, All, ◌≡◌, inl, inr, arith, str_eq,
}
use Prim.Native.Nat.{◌/◌, ◌%◌}
use kra_analysis.Prelude.Result.{Result, Outcome, Outcome-bind}
use kra_analysis.Prelude.Value.{
  Value, Fields, Items, null, obj, arr, str, float, int, bool, nil, cons, end, field, ℤ, pos,
  negsuc, finite, infinite, nan,
}
use kra_analysis.Prelude.Objects.{find_field, get_field, or_null, elements, entries}
use kra_analysis.Predictions.Conversions.{
  Platform, Raised, Extracted, positive, coerce_positive_chul_no, coerce_score, or_next,
  score_under, first_present, first_score, extract_candidate_fields, as_sequence, when_sequence,
  score_keys, number_keys, one_unit,
}

abbrev pub IsPositive : Option ℕ → Type 0
IsPositive none = Unit {0}
IsPositive (some n) = 0 < n

positive-IsPositive : (n : ℕ) → IsPositive (positive n)
positive-IsPositive zero = tt
positive-IsPositive (suc n) = omega arith

module _ (p : Platform) (R : Raised → Type 0) where
  abbrev pub ConvertsText : String → Type 0
  ConvertsText s = Outcome R IsPositive (coerce_positive_chul_no p (str s))

  abbrev pub ConvertsInt : ℤ → Type 0
  ConvertsInt z = Outcome R (λ _. Unit {0}) (coerce_score p (int z))

  -- The texts and keys that are all digits, and the integers, convert; or the exception is one of R.
  unfoldable mutual
    pub Converts : Value → Type 0
    Converts null = Unit
    Converts (obj f) = ConvertsFields f
    Converts (arr xs) = ConvertsItems xs
    Converts (str s) = ConvertsText s
    Converts (float x) = Unit
    Converts (int z) = ConvertsInt z
    Converts (bool b) = Unit

    pub ConvertsFields : Fields → Type 0
    ConvertsFields end = Unit
    ConvertsFields (field k v f) = ConvertsText k × Converts v × ConvertsFields f

    pub ConvertsItems : Items → Type 0
    ConvertsItems nil = Unit
    ConvertsItems (cons v xs) = Converts v × ConvertsItems xs

  pub get_field-Converts : (f : Fields) (k : String) → ConvertsFields f → Converts (get_field f k)
  unfolding Converts
  get_field-Converts end k h = tt
  get_field-Converts (field j v f) k h = elim (Bool-cases (str_eq j k)) [
    | inl e ↦ rw e h.1
    | inr e ↦ rw e (get_field-Converts f k h.2)
  ]

  pub elements-Converts : (xs : Items) → ConvertsItems xs → All Converts (elements xs)
  unfolding Converts
  elements-Converts nil h = tt
  elements-Converts (cons v xs) h = (h.0, elements-Converts xs h.1)

  pub entries-Converts :
      (f : Fields) → ConvertsFields f → All (λ e. ConvertsText e.0 × Converts e.1) (entries f)
  unfolding Converts
  entries-Converts end h = tt
  entries-Converts (field k v f) h = ((h.0, h.1), entries-Converts f h.2)

  abbrev pub SequenceConverts : Option (List Value) → Type 0
  SequenceConverts none = Unit
  SequenceConverts (some items) = All Converts items

  pub as_sequence-Converts : (v : Value) → Converts v → SequenceConverts (as_sequence v)
  unfolding Converts as_sequence
  as_sequence-Converts (arr xs) h = elements-Converts xs h
  as_sequence-Converts null h = tt
  as_sequence-Converts (obj f) h = tt
  as_sequence-Converts (str s) h = tt
  as_sequence-Converts (float x) h = tt
  as_sequence-Converts (int z) h = tt
  as_sequence-Converts (bool b) h = tt

  module _ {A : Type 0} (Q : A → Type 0) where
    pub when_sequence-Outcome :
        (items : Option (List Value)) (default : Result Raised A) (f : List Value → Result Raised A)
        → SequenceConverts items
        → Outcome R Q default
        → ((l : List Value) → All Converts l → Outcome R Q (f l))
        → Outcome R Q (when_sequence items default f)
    when_sequence-Outcome none default f h d k = d
    when_sequence-Outcome (some l) default f h d k = k l h

  -- A number that is read is positive.
  pub coerce-Outcome : (v : Value) → Converts v → Outcome R IsPositive (coerce_positive_chul_no p v)
  unfolding Converts coerce_positive_chul_no
  coerce-Outcome (str s) h = h
  coerce-Outcome (int (pos n)) h = positive-IsPositive n
  coerce-Outcome (int (negsuc n)) h = tt
  coerce-Outcome (float (finite (pos n))) h =
      let whole = n % one_unit == 0 in
      elim whole as (λ b. IsPositive (if b then positive (n / one_unit) else none)) [
        | true ↦ positive-IsPositive (n / one_unit)
        | false ↦ tt
      ]
  coerce-Outcome (float (finite (negsuc n))) h = tt
  coerce-Outcome (float (infinite s)) h = tt
  coerce-Outcome (float nan) h = tt
  coerce-Outcome null h = tt
  coerce-Outcome (obj f) h = tt
  coerce-Outcome (arr xs) h = tt
  coerce-Outcome (bool b) h = tt

  pub score-Outcome : (v : Value) → Converts v → Outcome R (λ _. Unit {0}) (coerce_score p v)
  unfolding Converts coerce_score
  score-Outcome (str s) h = tt
  score-Outcome (int z) h = h
  score-Outcome (float x) h = tt
  score-Outcome null h = tt
  score-Outcome (obj f) h = tt
  score-Outcome (arr xs) h = tt
  score-Outcome (bool b) h = tt

  or_next-Outcome :
      (score : Option ℤ) (next : Result Raised (Option ℤ))
      → Outcome R (λ _. Unit {0}) next
      → Outcome R (λ _. Unit {0}) (or_next score next)
  or_next-Outcome none next h = h
  or_next-Outcome (some z) next h = tt

  find_field-Converts :
      (f : Fields) (k : String) (v : Value)
      → ConvertsFields f
      → find_field f k ≡ some v
      → Converts v
  find_field-Converts f k v h e = rw (ap or_null e) at (get_field-Converts f k h)

  abbrev pub FoundConverts : Option Value → Type 0
  FoundConverts none = Unit
  FoundConverts (some v) = Converts v

  pub found-Converts : (f : Fields) (k : String) → ConvertsFields f → FoundConverts (find_field f k)
  unfolding Converts
  found-Converts end k h = tt
  found-Converts (field j v f) k h =
      elim (str_eq j k) as (λ b. FoundConverts (if b then some v else find_field f k)) [
        | true ↦ h.1
        | false ↦ found-Converts f k h.2
      ]

  score_under-Outcome :
      (v : Option Value) (next : Result Raised (Option ℤ))
      → FoundConverts v
      → Outcome R (λ _. Unit {0}) next
      → Outcome R (λ _. Unit {0}) (score_under p v next)
  score_under-Outcome none next h k = k
  score_under-Outcome (some v) next h k =
      Outcome-bind R (λ _. Unit {0}) (coerce_score p v) _ (score-Outcome v h)
        (λ score _. or_next-Outcome score next k)

  first_score-Outcome :
      (ks : List String) (f : Fields)
      → ConvertsFields f
      → Outcome R (λ _. Unit {0}) (first_score p ks f)
  unfolding first_score
  first_score-Outcome [] f h = tt
  first_score-Outcome (k ∷ ks) f h =
      score_under-Outcome (find_field f k) (first_score p ks f) (found-Converts f k h)
        (first_score-Outcome ks f h)

  first_present-Converts :
      (ks : List String) (f : Fields) → ConvertsFields f → Converts (first_present ks f)
  unfolding first_present Converts
  first_present-Converts [] f h = tt
  first_present-Converts (k ∷ ks) f h = elim (Option-cases (find_field f k)) [
    | inl e ↦ rw (e, first_present) (first_present-Converts ks f h)
    | inr (v, e) ↦ rw (e, first_present) (find_field-Converts f k v h e)
  ]

  -- The number of an item converts too.
  pub extract-Outcome :
      (item : Value)
      → Converts item
      → Outcome R (λ e. Converts e.0) (extract_candidate_fields p item)
  unfolding extract_candidate_fields Converts
  extract-Outcome (obj f) h =
      Outcome-bind R (λ (e : Extracted). Converts e.0) (first_score p score_keys f) _
        (first_score-Outcome score_keys f h) (λ _ _. first_present-Converts number_keys f h)
  extract-Outcome (str s) h = h
  extract-Outcome (int z) h = h
  extract-Outcome (float x) h = h
  extract-Outcome null h = h
  extract-Outcome (arr xs) h = h
  extract-Outcome (bool b) h = h
