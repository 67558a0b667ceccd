-- ===== src/Predictions/Guard/Ordered.antt =====
-- The race card in the order in which it was given: different horses, all of the card.
use kra_analysis.Prelude.{
  ℕ, List, [], ◌∷◌, Option, none, some, true, false, All, All-append, ◌≡◌, refl, ap, ◌∙◌, arith,
  Bool-cases, inl, inr,
}
use kra_analysis.Prelude.Result.{ok, Outcome, Outcome-bind, Outcome-eq, Outcome-any, Outcome-ok}
use kra_analysis.Prelude.Value.{Value, Fields}
use kra_analysis.Prelude.Table.{member, Distinct, Apart, append-Distinct}
use kra_analysis.Predictions.Conversions.{Platform, Raised, coerce_positive_chul_no}
use kra_analysis.Predictions.Lookups.{
  Card, or_none, add_number, positive_numbers, extract_valid_chul_nos,
}
use kra_analysis.Predictions.Supplements.{in_card}
use kra_analysis.Predictions.Converts.{IsPositive, Converts, coerce-Outcome}
use kra_analysis.Predictions.Cards.{NumbersConvert}
use kra_analysis.Predictions.Guard.Reading.{add_new, ordered_from, ordered_valid_chul_nos}
use kra_analysis.Predictions.Guard.Restored.{coerce_chul_no-eq}
use kra_analysis.Predictions.Guard.Filling.{IsRunner}

abbrev same : ℕ → ℕ
same n = n

module _ (p : Platform) where
  -- The number of the value, where it has one, is among these.
  abbrev Listed : List ℕ → Value → Type 0
  Listed numbers v = (n : ℕ) → coerce_positive_chul_no p v ≡ ok (some n) → member numbers n ≡ true

  Listed-more :
      (number : Option ℕ) (numbers : List ℕ) (vs : List Value)
      → All (Listed numbers) vs
      → All (Listed (add_number number numbers)) vs
  Listed-more none numbers vs h = h
  Listed-more (some k) numbers [] h = tt
  Listed-more (some k) numbers (v ∷ vs) h =
      ((λ n e. ground (arith, h.0 n e)), Listed-more (some k) numbers vs h.1)

  Listed-first :
      (number : Option ℕ) (numbers : List ℕ) (v : Value)
      → coerce_positive_chul_no p v ≡ ok number
      → Listed (add_number number numbers) v
  Listed-first none numbers v h n e = absurd (cc)
  Listed-first (some k) numbers v h n e = let k_is_n : k ≡ n = cc in ground (arith, k_is_n)

  positive_numbers-Listed :
      (vs : List Value)
      → Outcome (λ _. Unit {0}) (λ numbers. All (Listed numbers) vs) (positive_numbers p vs)
  unfolding positive_numbers
  positive_numbers-Listed [] = tt
  positive_numbers-Listed (v ∷ vs) =
      Outcome-bind (λ _. Unit {0}) (λ numbers. All (Listed numbers) (v ∷ vs))
        (coerce_positive_chul_no p v) _
        (Outcome-eq (λ _. Unit {0}) _ (coerce_positive_chul_no p v) (Outcome-any _))
        (λ number (e, _).
          Outcome-bind (λ _. Unit {0}) (λ numbers. All (Listed numbers) (v ∷ vs))
            (positive_numbers p vs) (λ rest. ok (add_number number rest))
            (positive_numbers-Listed vs)
            (λ rest h. (Listed-first number rest v e, Listed-more number rest vs h)))

  in_or_none :
      (numbers : List ℕ) (n : ℕ) → member numbers n ≡ true → in_card (or_none numbers) n ≡ true
  in_or_none [] n h = refl
  in_or_none (k ∷ numbers) n h = h

  module _ (card : Card) where
    abbrev Carded : Value → Type 0
    Carded v = (n : ℕ) → coerce_positive_chul_no p v ≡ ok (some n) → in_card card n ≡ true

    abbrev pub AreOrdered : List ℕ → Type 0
    AreOrdered ns = All (IsRunner card) ns × Distinct same ns

    not_member : (ns : List ℕ) (n : ℕ) → member ns n ≡ false → Apart same ns n
    not_member [] n h = tt
    not_member (k ∷ ns) n h = ((λ e. absurd (ground arith)), not_member ns n (ground arith))

    add_new-AreOrdered :
        (number : Option ℕ) (ns : List ℕ)
        → IsPositive number
        → ((n : ℕ) → number ≡ some n → in_card card n ≡ true)
        → AreOrdered ns
        → AreOrdered (add_new number ns)
    add_new-AreOrdered none ns h k o = o
    add_new-AreOrdered (some n) ns h k o = elim (Bool-cases (member ns n)) [
      | inl e ↦ rw e o
      | inr e ↦ rw e (
        All-append (IsRunner card) ns (n ∷ []) o.0 ((h, k n refl), tt),
        append-Distinct same ns n o.1 (not_member ns n e),
      )
    ]

    module _ (R : Raised → Type 0) where
      ordered_from-Outcome :
          (vs : List Value) (ns : List ℕ)
          → All (Converts p R) vs
          → All Carded vs
          → AreOrdered ns
          → Outcome R AreOrdered (ordered_from p vs ns)
      unfolding ordered_from
      ordered_from-Outcome [] ns c l o = o
      ordered_from-Outcome (v ∷ vs) ns c l o = rw (coerce_chul_no-eq p v) (
          Outcome-bind R AreOrdered (coerce_positive_chul_no p v) _
            (Outcome-eq R _ (coerce_positive_chul_no p v) (coerce-Outcome p R v c.0))
            (λ number (e, h).
              ordered_from-Outcome vs (add_new number ns) c.1 l.1
                (add_new-AreOrdered number ns h (λ n e'. l.0 n (e ∙ ap ok e')) o)))

  carded :
      (numbers : List ℕ) (vs : List Value)
      → All (Listed numbers) vs
      → All (Carded (or_none numbers)) vs
  carded numbers [] h = tt
  carded numbers (v ∷ vs) h = ((λ n e. in_or_none numbers n (h.0 n e)), carded numbers vs h.1)

  module _ (R : Raised → Type 0) (payload : Fields) (normalized : Option Fields) (card : Card) where
    pub ordered_valid_chul_nos-Outcome :
        (valid : Option (List Value))
        → NumbersConvert p R valid
        → extract_valid_chul_nos p payload normalized valid ≡ ok card
        → Outcome R (AreOrdered card) (ordered_valid_chul_nos p valid)
    unfolding ordered_valid_chul_nos extract_valid_chul_nos
    ordered_valid_chul_nos-Outcome none c e = (tt, tt)
    ordered_valid_chul_nos-Outcome (some vs) c e =
        let found =
          Outcome-bind (λ _. Unit {0}) (λ card. All (Carded card) vs) (positive_numbers p vs)
            (λ numbers. ok (or_none numbers)) (positive_numbers-Listed vs)
            (λ numbers h. carded numbers vs h) in
        ordered_from-Outcome card R vs [] c
          (Outcome-ok (λ _. Unit {0}) (λ card. All (Carded card) vs) _ card found e) (tt, tt)
