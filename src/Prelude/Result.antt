-- ===== src/Prelude/Result.antt =====
-- A pure function that may raise returns a `Result`; the exceptions are the component's own type.
use mathlib.Core.Path.{◌≡◌, refl, subst}
use mathlib.Core.Option.{Option, none, some}

pub data Result {ℓ} (E : Type ℓ) (A : Type ℓ) : Type ℓ where
  ok : A → Result E A
  err : E → Result E A

-- `d[k]` after the look-up, or the exception of a missing key
abbrev pub or_raise {ℓ} : {E A : Type ℓ} → E → Option A → Result E A
or_raise e none = err e
or_raise e (some a) = ok a

infixl 10 ◌>>=◌
abbrev pub ◌>>=◌ {ℓ} : {E A B : Type ℓ} → Result E A → (A → Result E B) → Result E B
ok a >>= f = f a
err e >>= f = err e

-- What holds of the result, or of the exception that is raised in its place.
abbrev pub Outcome {ℓ κ} : {E A : Type ℓ} → (E → Type κ) → (A → Type κ) → Result E A → Type κ
Outcome R P (ok a) = P a
Outcome R P (err e) = R e

-- The rule of a chain of calls.
module _ {ℓ κ} {E A B : Type ℓ} (R : E → Type κ) {P : A → Type κ} (Q : B → Type κ) where
  pub Outcome-bind :
      (m : Result E A) (f : A → Result E B)
      → Outcome R P m
      → ((a : A) → P a → Outcome R Q (f a))
      → Outcome R Q (m >>= f)
  Outcome-bind (ok a) f h k = k a h
  Outcome-bind (err e) f h k = h

-- A weaker statement of the result.
pub Outcome-weaken {ℓ} :
    {E A : Type ℓ} (R : E → Type 0) {P : A → Type 0} (Q : A → Type 0) (m : Result E A)
    → ((a : A) → P a → Q a)
    → Outcome R P m
    → Outcome R Q m
Outcome-weaken R Q (ok a) f h = f a h
Outcome-weaken R Q (err e) f h = h

-- The value is the one that was returned.
pub Outcome-eq {ℓ} :
    {E A : Type ℓ} (R : E → Type ℓ) (P : A → Type ℓ) (m : Result E A)
    → Outcome R P m
    → Outcome R (λ a. (m ≡ ok a) × P a) m
Outcome-eq R P (ok a) h = (refl, h)
Outcome-eq R P (err e) h = h

-- Of a call that returned, the statement holds.
pub Outcome-ok {ℓ} :
    {E A : Type ℓ} (R : E → Type 0) (P : A → Type 0) (m : Result E A) (a : A)
    → Outcome R P m
    → m ≡ ok a
    → P a
Outcome-ok R P m a h e = subst (Outcome R P) e h

-- A chain returned: so did its first call.
pub bind_ok {ℓ} :
    {E A B : Type ℓ} (m : Result E A) (f : A → Result E B) (b : B)
    → (m >>= f) ≡ ok b
    → (a : A) × (m ≡ ok a) × (f a ≡ ok b)
bind_ok (ok a) f b e = (a, refl, e)
bind_ok (err x) f b e = absurd (cc)

pub Outcome-any {ℓ} : {E A : Type ℓ} (m : Result E A) → Outcome (λ _. Unit {0}) (λ _. Unit {0}) m
Outcome-any (ok a) = tt
Outcome-any (err e) = tt

pub ok_inj {ℓ} : {E A : Type ℓ} (a b : A) → ◌≡◌ {A = Result E A} (ok a) (ok b) → a ≡ b
ok_inj a b e = cc

-- Where no exception is possible, there is a result.
pub Outcome-returns {ℓ} :
    {E A : Type ℓ} {P : A → Type 0} (m : Result E A)
    → Outcome (λ _. ⊥) P m
    → (a : A) × (m ≡ ok a) × P a
Outcome-returns (ok a) h = (a, refl, h)
Outcome-returns (err e) h = absurd h
