-- ===== src/Prelude/Exec/Always.antt =====
-- Actions whose result does not depend on the state, with one rule for each way to build an action.
use mathlib.Core.Path.{◌≡◌, refl, ap, ◌∙◌}
use kra_analysis.Prelude.Result.{Result, ok, err}
use kra_analysis.Prelude.Exec.{
  Exec, pure, raise, lift, continue, ◌>>=◌, ◌>>◌, handle_with, try_except,
}

pub record Always {ℓ} {S E A : Type ℓ} (m : Exec S E A) (r : Result E A) : Type ℓ where
  pub at : (s : S) → (m s).0 ≡ r

module _ {ℓ} {S E A : Type ℓ} where
  pub Always-pure : (a : A) → Always {S = S} {E = E} (pure a) (ok a)
  unfolding pure
  Always-pure a = record { at = λ s. refl }

  pub Always-raise : (e : E) → Always {S = S} {A = A} (raise e) (err e)
  unfolding raise
  Always-raise e = record { at = λ s. refl }

  pub Always-lift : (r : Result E A) → Always {S = S} (lift r) r
  unfolding lift
  Always-lift r = record { at = λ s. refl }

module _ {ℓ} {S E A B : Type ℓ} {m : Exec S E A} (f : A → Exec S E B) where
  pub Always-bind : {a : A} {r : Result E B} → Always m (ok a) → Always (f a) r → Always (m >>= f) r
  unfolding ◌>>=◌
  Always-bind {a} p q = record {
    at = λ s. ap (λ x. (continue x f (m s).1).0) (p.at s) ∙ q.at (m s).1;
  }

  pub Always-bind-err : {e : E} → Always m (err e) → Always (m >>= f) (err e)
  unfolding ◌>>=◌
  Always-bind-err p = record { at = λ s. ap (λ x. (continue x f (m s).1).0) (p.at s) }

module _ {ℓ} {S E A B : Type ℓ} {m : Exec S E A} (n : Exec S E B) where
  pub Always-then : {a : A} {r : Result E B} → Always m (ok a) → Always n r → Always (m >> n) r
  Always-then p q = Always-bind (λ _. n) p q

module _ {ℓ} {S E A : Type ℓ} {m : Exec S E A} (handler : E → Exec S E A) where
  pub Always-try : {a : A} → Always m (ok a) → Always (try_except m handler) (ok a)
  unfolding try_except
  Always-try p = record { at = λ s. ap (λ x. (handle_with x handler (m s).1).0) (p.at s) }

  pub Always-catch :
      {e : E} {r : Result E A}
      → Always m (err e)
      → Always (handler e) r
      → Always (try_except m handler) r
  unfolding try_except
  Always-catch p q = record {
    at = λ s. ap (λ x. (handle_with x handler (m s).1).0) (p.at s) ∙ q.at (m s).1;
  }
