-- ===== src/Prelude/Exec/Runs.antt =====
-- Running an action: from a state to a result and a state, with one rule for each way to build an
-- action.
use mathlib.Core.Path.{◌≡◌, refl, ap, ◌∙◌}
use mathlib.Core.Bool.{Bool, true, false}
use kra_analysis.Prelude.Tests.{if◌then◌else◌}
use kra_analysis.Prelude.Result.{Result, ok, err}
use kra_analysis.Prelude.Exec.{
  Exec, pure, raise, lift, gets, modify, continue, ◌>>=◌, ◌>>◌, handle_with, try_except,
}

pub record Runs {ℓ} {S E A : Type ℓ} (m : Exec S E A) (s : S) (r : Result E A) (s' : S)
    : Type ℓ where
  pub path : m s ≡ (r, s')

module _ {ℓ} {S E A B : Type ℓ} {m : Exec S E A} (f : A → Exec S E B) {s s' : S} where
  pub Runs-bind :
      {s'' : S} {a : A} {r : Result E B}
      → Runs m s (ok a) s'
      → Runs (f a) s' r s''
      → Runs (m >>= f) s r s''
  unfolding ◌>>=◌
  Runs-bind p q = record { path = ap (λ (x : Result E A × S). continue x.0 f x.1) p.path ∙ q.path }

  pub Runs-bind-err : {e : E} → Runs m s (err e) s' → Runs (m >>= f) s (err e) s'
  unfolding ◌>>=◌
  Runs-bind-err p = record { path = ap (λ (x : Result E A × S). continue x.0 f x.1) p.path }

module _ {ℓ} {S E A B : Type ℓ} {m : Exec S E A} (n : Exec S E B) {s s' : S} where
  pub Runs-then :
      {s'' : S} {a : A} {r : Result E B}
      → Runs m s (ok a) s'
      → Runs n s' r s''
      → Runs (m >> n) s r s''
  Runs-then p q = Runs-bind (λ _. n) p q

  pub Runs-then-err : {e : E} → Runs m s (err e) s' → Runs (m >> n) s (err e) s'
  Runs-then-err p = Runs-bind-err (λ _. n) p

module _ {ℓ} {S E : Type ℓ} where
  pub Runs-modify : (f : S → S) (s : S) → Runs (modify {E = E} f) s (ok tt) (f s)
  unfolding modify
  Runs-modify f s = record { path = refl }

module _ {ℓ} {S E A : Type ℓ} where
  pub Runs-pure : (a : A) (s : S) → Runs (pure {E = E} a) s (ok a) s
  unfolding pure
  Runs-pure a s = record { path = refl }

  pub Runs-raise : (e : E) (s : S) → Runs (raise {A = A} e) s (err e) s
  unfolding raise
  Runs-raise e s = record { path = refl }

  pub Runs-gets : (f : S → A) (s : S) → Runs (gets {E = E} f) s (ok (f s)) s
  unfolding gets
  Runs-gets f s = record { path = refl }

  pub Runs-lift : {r r' : Result E A} (s : S) → r ≡ r' → Runs (lift r) s r' s
  unfolding lift
  Runs-lift s e = record { path = ap (λ (x : Result E A). (x, s)) e }

  pub Runs-then-branch :
      {b : Bool} (m n : Exec S E A) {s s' : S} {r : Result E A}
      → b ≡ true
      → Runs m s r s'
      → Runs (if b then m else n) s r s'
  Runs-then-branch m n e p = rw e p

  pub Runs-else-branch :
      {b : Bool} (m n : Exec S E A) {s s' : S} {r : Result E A}
      → b ≡ false
      → Runs n s r s'
      → Runs (if b then m else n) s r s'
  Runs-else-branch m n e p = rw e p

module _ {ℓ} {S E A : Type ℓ} {m : Exec S E A} (handler : E → Exec S E A) {s s' : S} where
  pub Runs-try : {a : A} → Runs m s (ok a) s' → Runs (try_except m handler) s (ok a) s'
  unfolding try_except
  Runs-try p = record { path = ap (λ (x : Result E A × S). handle_with x.0 handler x.1) p.path }

  pub Runs-catch :
      {s'' : S} {e : E} {r : Result E A}
      → Runs m s (err e) s'
      → Runs (handler e) s' r s''
      → Runs (try_except m handler) s r s''
  unfolding try_except
  Runs-catch p q = record {
    path = ap (λ (x : Result E A × S). handle_with x.0 handler x.1) p.path ∙ q.path;
  }

pub ruleset runs_rules = (Runs-then, Runs-bind, Runs-modify, Runs-pure, Runs-raise, Runs-gets)
