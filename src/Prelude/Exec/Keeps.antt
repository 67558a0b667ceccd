-- ===== src/Prelude/Exec/Keeps.antt =====
-- State predicates that an action keeps whether it returns or raises, with one rule for each way to
-- build an action.
use mathlib.Core.Path.{◌≡◌, refl, subst}
use mathlib.Core.Bool.{Bool, true, false}
use kra_analysis.Prelude.Tests.{if◌then◌else◌}
use kra_analysis.Prelude.Result.{Result, ok, err}
use kra_analysis.Prelude.Exec.{
  Exec, pure, raise, lift, gets, modify, continue, ◌>>=◌, ◌>>◌, handle_with, try_except,
}

pub record Keeps {ℓ} {S E A : Type ℓ} (Inv : S → Type ℓ) (m : Exec S E A) : Type ℓ where
  pub at : (s : S) → Inv s → Inv (m s).1

module _ {ℓ} {S E : Type ℓ} {Inv : S → Type ℓ} where
  pub Keeps-modify : (f : S → S) → ((s : S) → Inv s → Inv (f s)) → Keeps Inv (modify {E = E} f)
  unfolding modify
  Keeps-modify f k = record { at = k }

module _ {ℓ} {S E A : Type ℓ} {Inv : S → Type ℓ} where
  pub Keeps-pure : (a : A) → Keeps Inv (pure {E = E} a)
  unfolding pure
  Keeps-pure a = record { at = λ s kept. kept }

  pub Keeps-raise : (e : E) → Keeps Inv (raise {A = A} e)
  unfolding raise
  Keeps-raise e = record { at = λ s kept. kept }

  pub Keeps-lift : (r : Result E A) → Keeps Inv (lift r)
  unfolding lift
  Keeps-lift r = record { at = λ s kept. kept }

  pub Keeps-gets : (f : S → A) → Keeps Inv (gets {E = E} f)
  unfolding gets
  Keeps-gets f = record { at = λ s kept. kept }

  pub Keeps-if :
      (b : Bool) (m n : Exec S E A) → Keeps Inv m → Keeps Inv n → Keeps Inv (if b then m else n)
  Keeps-if true m n km kn = km
  Keeps-if false m n km kn = kn

  Keeps-handle :
      (r : Result E A) (handler : E → Exec S E A)
      → ((e : E) → Keeps Inv (handler e))
      → (s : S) → Inv s
      → Inv (handle_with r handler s).1
  Keeps-handle (ok a) handler k s h = h
  Keeps-handle (err e) handler k s h = (k e).at s h

  pub Keeps-try_except :
      (m : Exec S E A) (handler : E → Exec S E A)
      → Keeps Inv m
      → ((e : E) → Keeps Inv (handler e))
      → Keeps Inv (try_except m handler)
  unfolding try_except
  Keeps-try_except m handler km kh = record {
    at = λ s h. let (r, s') = m s in Keeps-handle r handler kh s' (km.at s h);
  }

module _ {ℓ} {S E A B : Type ℓ} {Inv : S → Type ℓ} where
  Keeps-continue :
      (r : Result E A) (f : A → Exec S E B)
      → ((a : A) → Keeps Inv (f a))
      → (s : S) → Inv s
      → Inv (continue r f s).1
  Keeps-continue (ok a) f k s h = (k a).at s h
  Keeps-continue (err e) f k s h = h

  pub Keeps-bind :
      (m : Exec S E A) (f : A → Exec S E B)
      → Keeps Inv m
      → ((a : A) → Keeps Inv (f a))
      → Keeps Inv (m >>= f)
  unfolding ◌>>=◌
  Keeps-bind m f km kf = record {
    at = λ s h. let (r, s') = m s in Keeps-continue r f kf s' (km.at s h);
  }

-- From a state with `Inv`, whatever `m` returns has `Q`.
pub record Gives {ℓ} {S E A : Type ℓ} (Inv : S → Type ℓ) (Q : A → Type ℓ) (m : Exec S E A)
    : Type ℓ where
  pub result : (s : S) {a : A} → Inv s → (m s).0 ≡ ok a → Q a

module _ {ℓ} {S E A B : Type ℓ} {Inv : S → Type ℓ} {Q : A → Type ℓ} where
  Keeps-continue-Gives :
      (r : Result E A) (f : A → Exec S E B)
      → ((a : A) → r ≡ ok a → Q a)
      → ((a : A) → Q a → Keeps Inv (f a))
      → (s : S) → Inv s
      → Inv (continue r f s).1
  Keeps-continue-Gives (ok a) f q k s h = (k a (q a refl)).at s h
  Keeps-continue-Gives (err e) f q k s h = h

  -- The rest may use what `m` returns.
  pub Keeps-bind-Gives :
      (m : Exec S E A) (f : A → Exec S E B)
      → Keeps Inv m
      → Gives Inv Q m
      → ((a : A) → Q a → Keeps Inv (f a))
      → Keeps Inv (m >>= f)
  unfolding ◌>>=◌
  Keeps-bind-Gives m f km gm kf = record {
    at = λ s h. Keeps-continue-Gives (m s).0 f (λ a. gm.result s h) kf (m s).1 (km.at s h);
  }

module _ {ℓ} {S E A B : Type ℓ} {Inv : S → Type ℓ} where
  pub Keeps-then :
      (m : Exec S E A) (n : Exec S E B) → Keeps Inv m → Keeps Inv n → Keeps Inv (m >> n)
  Keeps-then m n km kn = Keeps-bind m (λ _. n) km (λ _. kn)

pub ok_eq {ℓ} : {E A : Type ℓ} {a b : A} → ◌≡◌ {A = Result E A} (ok a) (ok b) → a ≡ b
ok_eq e = cc

module _ {ℓ} {S E A B : Type ℓ} {Inv : S → Type ℓ} {Q : B → Type ℓ} where
  Gives-continue :
      (r : Result E A) (f : A → Exec S E B)
      → ((a : A) → Gives Inv Q (f a))
      → (s : S) {b : B} → Inv s
      → (continue r f s).0 ≡ ok b
      → Q b
  Gives-continue (ok a) f k s h e = (k a).result s h e
  Gives-continue (err x) f k s h e = absurd (cc)

  pub Gives-bind :
      (m : Exec S E A) (f : A → Exec S E B)
      → Keeps Inv m
      → ((a : A) → Gives Inv Q (f a))
      → Gives Inv Q (m >>= f)
  unfolding ◌>>=◌
  Gives-bind m f km kf = record {
    result = λ s h e. Gives-continue (m s).0 f kf (m s).1 (km.at s h) e;
  }

module _ {ℓ} {S E A : Type ℓ} {Inv : S → Type ℓ} {Q : A → Type ℓ} where
  pub Gives-pure : (a : A) → Q a → Gives Inv Q (pure {E = E} a)
  unfolding pure
  Gives-pure a q = record { result = λ s h e. subst Q (ok_eq e) q }

  pub Gives-lift : (r : Result E A) → ((a : A) → r ≡ ok a → Q a) → Gives Inv Q (lift r)
  unfolding lift
  Gives-lift r k = record { result = λ s h e. k _ e }

  pub Gives-raise : (x : E) → Gives Inv Q (raise {A = A} x)
  unfolding raise
  Gives-raise x = record { result = λ s h e. absurd (cc) }

  pub Gives-gets : (f : S → A) → ((s : S) → Inv s → Q (f s)) → Gives Inv Q (gets {E = E} f)
  unfolding gets
  Gives-gets f k = record { result = λ s h e. subst Q (ok_eq e) (k s h) }

  pub Gives-if :
      (b : Bool) (m n : Exec S E A)
      → Gives Inv Q m
      → Gives Inv Q n
      → Gives Inv Q (if b then m else n)
  Gives-if true m n gm gn = gm
  Gives-if false m n gm gn = gn

pub ruleset keeps_rules =
    (Keeps-pure, Keeps-raise, Keeps-lift, Keeps-gets, Keeps-if, Keeps-bind, Keeps-try_except)
