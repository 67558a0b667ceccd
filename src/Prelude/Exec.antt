-- ===== src/Prelude/Exec.antt =====
-- Methods that read and write a state and may raise. What was written before a raise stays written,
-- so the state comes back beside the exception too.
pub mod Keeps
pub mod Runs
pub mod Always
pub mod Post
pub mod Returned
use mathlib.Core.Path.{◌≡◌, refl}
use kra_analysis.Prelude.Result.{Result, ok, err}

abbrev pub Exec {ℓ} : Type ℓ → Type ℓ → Type ℓ → Type ℓ
Exec S E A = S → Result E A × S

module _ {ℓ} {S E A : Type ℓ} where
  pub pure : A → Exec S E A
  pure a s = (ok a, s)

  pub raise : E → Exec S E A
  raise e s = (err e, s)

  pub lift : Result E A → Exec S E A
  lift r s = (r, s)

  pub gets : (S → A) → Exec S E A
  gets f s = (ok (f s), s)

module _ {ℓ} {S E : Type ℓ} where
  pub modify : (S → S) → Exec S E Unit
  modify f s = (ok tt, f s)

module _ {ℓ} {S E A B : Type ℓ} where
  abbrev pub continue : Result E A → (A → Exec S E B) → Exec S E B
  continue (ok a) f s = f a s
  continue (err e) f s = (err e, s)

  infixl 10 ◌>>=◌ ◌>>◌
  -- The five actions above open with it.
  unfoldable pub ◌>>=◌ : Exec S E A → (A → Exec S E B) → Exec S E B
  unfolding pure raise lift gets modify
  ◌>>=◌ m f s = let (r, s') = m s in continue r f s'

  abbrev pub ◌>>◌ : Exec S E A → Exec S E B → Exec S E B
  m >> n = m >>= λ _. n

module _ {ℓ} {S E A : Type ℓ} where
  abbrev pub handle_with : Result E A → (E → Exec S E A) → Exec S E A
  handle_with (ok a) handler s = (ok a, s)
  handle_with (err e) handler s = handler e s

  -- `try: body` and `except Exception as e: handler(e)`
  unfoldable pub try_except : Exec S E A → (E → Exec S E A) → Exec S E A
  try_except body handler s = let (r, s') = body s in handle_with r handler s'
