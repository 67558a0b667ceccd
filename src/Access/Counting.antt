-- ===== src/Access/Counting.antt =====
-- What a request changes in the table of keys: at most the count of the key that it presents.
use kra_analysis.Prelude.{
  ℕ, String, List, [], ◌∷◌, Option, none, some, Bool, true, false, Bool-cases, ◌≡◌, ◌⊎◌, refl, sym,
  subst, ap, inl, inr, str_eq,
}
use kra_analysis.Prelude.Dict.{get, put}
use kra_analysis.Prelude.Result.{Result, ok, err}
use kra_analysis.Prelude.Exec.{pure, lift, gets, continue, ◌>>=◌, handle_with, try_except}
use kra_analysis.Access.Policy.{
  PolicyAction, AuthError, http, backend_error, database_error, type_error, has, authorize,
}
use kra_analysis.Access.Keys.{
  ApiKey, KeyStore, Auth, next_answer, round_trip, key_format, only_active, find_key, is_expired,
  counted, use_key, use_unexpired, use_found, as_backend_error, known_key, verify_api_key,
}
use kra_analysis.Access.Granted.{only_active-some}
use kra_analysis.Access.Requests.{
  resolve_presented_api_key, principal_of, unavailable, within_limit, given_key, admitted,
  require_api_key_record, require_principal, require_action,
}

-- The table as it was, or with the use of the key counted.
module _ (now : ℕ) (key : String) (w : KeyStore) where
  abbrev pub After : KeyStore → Type 0
  After t =
      (t.api_keys ≡ w.api_keys)
      ⊎ ((old : ApiKey) × (get w.api_keys key ≡ some old)
          × (t.api_keys ≡ put w.api_keys old.key (counted now old)))

  -- What the exception leaves is the state that it was raised in.
  After-try :
      {A : Type 0} (p : Result AuthError A × KeyStore) (handler : AuthError → Auth A)
      → ((e : AuthError) (s : KeyStore) → (handler e s).1 ≡ s)
      → After p.1
      → After (handle_with p.0 handler p.1).1
  After-try (ok a, s) handler h k = k
  After-try (err e, s) handler h k = subst After (sym (h e s)) k

  After-trip :
      {A : Type 0} (outages : List Bool) (s : KeyStore) (f : Unit {0} → Auth A)
      → s.api_keys ≡ w.api_keys
      → ((t : KeyStore) → t.api_keys ≡ w.api_keys → After (f tt t).1)
      → After (continue (next_answer outages s).0 f (next_answer outages s).1).1
  After-trip [] s f h k = k s h
  After-trip (true ∷ rest) s f h k = inl h
  After-trip (false ∷ rest) s f h k = k (record s { outages = rest }) h

  used-After :
      (old : ApiKey) (s : KeyStore)
      → get w.api_keys key ≡ some old
      → s.api_keys ≡ w.api_keys
      → After (use_key now old s).1
  unfolding use_key round_trip ◌>>=◌
  used-After old s found h =
      After-trip s.outages s _ h
        (λ t k. inr (old, found, ap (λ d. put d old.key (counted now old)) k))

  found-After :
      (o : Option ApiKey) (s : KeyStore)
      → only_active (get w.api_keys key) ≡ o
      → s.api_keys ≡ w.api_keys
      → After (use_found now o s).1
  unfolding ◌>>=◌
  found-After none s e h = inl h
  found-After (some old) s e h =
      let (stored, _) = only_active-some (get w.api_keys key) old e in
      unexpired-After (is_expired now old.expires_at) old s stored h
    where
      unexpired-After :
          (r : Result AuthError Bool) (old : ApiKey) (s : KeyStore)
          → get w.api_keys key ≡ some old
          → s.api_keys ≡ w.api_keys
          → After (continue r (use_unexpired now old) s).1
      unexpired-After (err e) old s stored h = inl h
      unexpired-After (ok true) old s stored h = inl h
      unexpired-After (ok false) old s stored h = used-After old s stored h

  abbrev read_row : Result AuthError Unit × KeyStore → Result AuthError (Option ApiKey) × KeyStore
  read_row p = continue p.0 (λ _. gets (λ (t : KeyStore). only_active (get t.api_keys key))) p.1

  After-find :
      (outages : List Bool) (s : KeyStore)
      → s.api_keys ≡ w.api_keys
      → After
          (continue
            (read_row (next_answer outages s)).0
            (use_found now)
            (read_row (next_answer outages s)).1).1
  unfolding ◌>>=◌
  After-find [] s h = found-After _ s (ap (λ d. only_active (get d key)) (sym h)) h
  After-find (true ∷ rest) s h = inl h
  After-find (false ∷ rest) s h =
      found-After _ (record s { outages = rest }) (ap (λ d. only_active (get d key)) (sym h)) h

  known-After : (valid_api_keys : List String) → After (known_key valid_api_keys now key w).1
  unfolding find_key round_trip ◌>>=◌
  known-After valid_api_keys = elim (Bool-cases (key_format key)) [
    | inr bad ↦ rw bad (inl refl)
    | inl good ↦ rw good (elim (Bool-cases (has valid_api_keys key)) [
      | inl known ↦ rw known (inl refl)
      | inr unknown ↦ rw unknown (After-find w.outages w refl)
    ])
  ]

  backend_kept : (e : AuthError) (s : KeyStore) → (as_backend_error e s).1 ≡ s
  unfolding ◌>>=◌
  backend_kept (http code detail) s = refl
  backend_kept backend_error s = refl
  backend_kept database_error s = refl
  backend_kept type_error s = refl

  unavailable_kept : (e : AuthError) (s : KeyStore) → (unavailable e s).1 ≡ s
  unfolding ◌>>=◌
  unavailable_kept (http code detail) s = refl
  unavailable_kept backend_error s = refl
  unavailable_kept database_error s = refl
  unavailable_kept type_error s = refl

  verify-After : (valid_api_keys : List String) → After (verify_api_key valid_api_keys now key w).1
  unfolding verify_api_key try_except
  verify-After valid_api_keys =
      After-try (known_key valid_api_keys now key w) as_backend_error backend_kept
        (known-After valid_api_keys)

  -- What follows the check of the key changes nothing.
  After-lift :
      {A B : Type 0} (p : Result AuthError A × KeyStore) (f : A → Auth B)
      → ((a : A) (s : KeyStore) → (f a s).1 ≡ s)
      → After p.1
      → After (continue p.0 f p.1).1
  After-lift (ok a, s) f h k = subst After (sym (h a s)) k
  After-lift (err e, s) f h k = k

  After-bind :
      {A B : Type 0} (m : Auth A) (f : A → Auth B)
      → ((a : A) (s : KeyStore) → (f a s).1 ≡ s)
      → After (m w).1
      → After ((m >>= f) w).1
  unfolding ◌>>=◌
  After-bind m f h k = After-lift (m w) f h k

  given-After : (valid_api_keys : List String) → After (given_key valid_api_keys now (some key) w).1
  unfolding try_except ◌>>=◌
  given-After valid_api_keys = elim (Bool-cases (str_eq key "")) [
    | inl empty ↦ rw empty (inl refl)
    | inr filled ↦ rw filled (
        After-bind (try_except (verify_api_key valid_api_keys now key) unavailable)
          (λ found. lift (within_limit found)) (λ a s. refl)
          (After-try (verify_api_key valid_api_keys now key w) unavailable unavailable_kept
            (verify-After valid_api_keys)))
  ]

  -- The whole request writes at most the count of the key.
  pub request-After :
      (valid_api_keys : List String) (x_api_key api_key : Option String) (action : PolicyAction)
      → resolve_presented_api_key x_api_key api_key ≡ some key
      → After (require_action valid_api_keys now x_api_key api_key action w).1
  unfolding require_action require_principal require_api_key_record ◌>>=◌
  request-After valid_api_keys x_api_key api_key action presented =
      After-bind (require_principal valid_api_keys now x_api_key api_key)
        (λ principal. lift (admitted principal action (authorize principal action))) (λ a s. refl)
        (After-bind (require_api_key_record valid_api_keys now x_api_key api_key)
          (λ row. pure (principal_of valid_api_keys x_api_key api_key row)) (λ a s. refl)
          (subst (λ o. After (given_key valid_api_keys now o w).1) (sym presented)
            (given-After valid_api_keys)))
