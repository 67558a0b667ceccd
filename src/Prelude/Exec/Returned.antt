-- ===== src/Prelude/Exec/Returned.antt =====
-- An action returned: so did the actions that it is made of.
use mathlib.Core.Path.{◌≡◌, refl, ap, sym, ◌∙◌}
use kra_analysis.Prelude.Result.{Result, ok, err}
use kra_analysis.Prelude.Exec.{Exec, continue, ◌>>=◌, handle_with, try_except}

module _ {ℓ} {S E A : Type ℓ} where
  pub pair_result : {x y : Result E A × S} → x ≡ y → x.0 ≡ y.0
  pair_result e = ap (λ p. p.0) e

  pub pair_state : {x y : Result E A × S} → x ≡ y → x.1 ≡ y.1
  pair_state e = ap (λ p. p.1) e

module _ {ℓ} {S E A B : Type ℓ} where
  split_bind :
      (p : Result E A × S) (f : A → Exec S E B) (b : B) (s' : S)
      → continue p.0 f p.1 ≡ (ok b, s')
      → (a : A) × (s : S) × (p ≡ (ok a, s)) × (f a s ≡ (ok b, s'))
  split_bind (ok a, s) f b s' e = (a, s, refl, e)
  split_bind (err x, s) f b s' e = absurd (let k = ap (λ q. q.0) e in cc)

  pub bind_returned :
      (m : Exec S E A) (f : A → Exec S E B) (s : S) (b : B) (s' : S)
      → (m >>= f) s ≡ (ok b, s')
      → (a : A) × (t : S) × (m s ≡ (ok a, t)) × (f a t ≡ (ok b, s'))
  unfolding ◌>>=◌
  bind_returned m f s b s' e = split_bind (m s) f b s' e

-- The handler raises whatever it is given.
module _ {ℓ} {S E A : Type ℓ} (handler : E → Exec S E A) where
  abbrev pub Reraises : Type ℓ
  Reraises = (e : E) → (x : E) × ((s : S) → handler e s ≡ (err x, s))

  split_try :
      (p : Result E A × S) (a : A) (s' : S)
      → Reraises
      → handle_with p.0 handler p.1 ≡ (ok a, s')
      → p ≡ (ok a, s')
  split_try (ok b, s) a s' h e = e
  split_try (err x, s) a s' h e = absurd (let k = ap (λ q. q.0) (sym ((h x).1 s) ∙ e) in cc)

  pub try_returned :
      (body : Exec S E A) (s : S) (a : A) (s' : S)
      → Reraises
      → try_except body handler s ≡ (ok a, s')
      → body s ≡ (ok a, s')
  unfolding try_except
  try_returned body s a s' h e = split_try (body s) a s' h e
