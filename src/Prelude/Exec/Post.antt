-- ===== src/Prelude/Exec/Post.antt =====
-- What holds of the state after an action whose result does not depend on the state.
use mathlib.Core.Path.{refl, sym, subst}
use kra_analysis.Prelude.Result.{Result, ok, err}
use kra_analysis.Prelude.Exec.{
  Exec, pure, raise, lift, continue, ◌>>=◌, ◌>>◌, handle_with, try_except,
}
use kra_analysis.Prelude.Exec.Always.{
  Always, Always-bind, Always-bind-err, Always-try, Always-catch,
}

pub record Post {ℓ} {S E A : Type ℓ} (P : S → Type ℓ) (m : Exec S E A) (r : Result E A)
    (Q : S → Type ℓ) : Type ℓ where
  pub result : Always m r
  pub after : (s : S) → P s → Q (m s).1

module _ {ℓ} {S E A : Type ℓ} {P : S → Type ℓ} where
  pub Post-pure : (a : A) → Post {E = E} P (pure a) (ok a) P
  unfolding pure
  Post-pure a = record { result = record { at = λ s. refl }; after = λ s h. h }

  pub Post-raise : (e : E) → Post {A = A} P (raise e) (err e) P
  unfolding raise
  Post-raise e = record { result = record { at = λ s. refl }; after = λ s h. h }

  pub Post-lift : (r : Result E A) → Post P (lift r) r P
  unfolding lift
  Post-lift r = record { result = record { at = λ s. refl }; after = λ s h. h }

module _ {ℓ} {S E A B : Type ℓ} {P R Q : S → Type ℓ} {m : Exec S E A} (f : A → Exec S E B) where
  pub Post-bind :
      {a : A} {r : Result E B} → Post P m (ok a) R → Post R (f a) r Q → Post P (m >>= f) r Q
  unfolding ◌>>=◌
  Post-bind {a} p q = record {
    result = Always-bind f p.result q.result;
    after = λ s h.
        subst (λ x. Q (continue x f (m s).1).1) (sym (p.result.at s))
          (q.after (m s).1 (p.after s h));
  }

module _ {ℓ} {S E A B : Type ℓ} {P Q : S → Type ℓ} {m : Exec S E A} (f : A → Exec S E B) where
  pub Post-bind-err : {e : E} → Post P m (err e) Q → Post P (m >>= f) (err e) Q
  unfolding ◌>>=◌
  Post-bind-err p = record {
    result = Always-bind-err f p.result;
    after = λ s h. subst (λ x. Q (continue x f (m s).1).1) (sym (p.result.at s)) (p.after s h);
  }

module _ {ℓ} {S E A B : Type ℓ} {P R Q : S → Type ℓ} {m : Exec S E A} (n : Exec S E B) where
  pub Post-then : {a : A} {r : Result E B} → Post P m (ok a) R → Post R n r Q → Post P (m >> n) r Q
  Post-then p q = Post-bind (λ _. n) p q

module _ {ℓ} {S E A : Type ℓ} {P Q : S → Type ℓ} {m : Exec S E A} (handler : E → Exec S E A) where
  pub Post-try : {a : A} → Post P m (ok a) Q → Post P (try_except m handler) (ok a) Q
  unfolding try_except
  Post-try p = record {
    result = Always-try handler p.result;
    after =
        λ s h. subst (λ x. Q (handle_with x handler (m s).1).1) (sym (p.result.at s)) (p.after s h);
  }

module _ {ℓ} {S E A : Type ℓ} {P R Q : S → Type ℓ} {m : Exec S E A} (handler : E → Exec S E A) where
  pub Post-catch :
      {e : E} {r : Result E A}
      → Post P m (err e) R
      → Post R (handler e) r Q
      → Post P (try_except m handler) r Q
  unfolding try_except
  Post-catch p q = record {
    result = Always-catch handler p.result q.result;
    after = λ s h.
        subst (λ x. Q (handle_with x handler (m s).1).1) (sym (p.result.at s))
          (q.after (m s).1 (p.after s h));
  }
