-- ===== src/Access/Granted.antt =====
-- A key that was verified: where it comes from, and what its use changed.
use kra_analysis.Prelude.{
  ℕ, String, List, [], ◌∷◌, Option, none, some, Bool, true, false, Bool-cases, ◌≡◌, ◌⊎◌, refl, sym,
  ap, ◌∙◌, subst, inl, inr,
}
use kra_analysis.Prelude.Dict.{get, put, some_eq}
use kra_analysis.Prelude.Result.{Result, ok}
use kra_analysis.Prelude.Exec.{lift, ◌>>=◌}
use kra_analysis.Prelude.Exec.Returned.{
  pair_result, pair_state, bind_returned, try_returned, Reraises,
}
use kra_analysis.Access.Policy.{AuthError, http, backend_error, database_error, type_error, has}
use kra_analysis.Access.Keys.{
  ApiKey, KeyStore, next_answer, round_trip, key_format, environment_key, is_true, only_active,
  find_key, is_expired, counted, use_key, use_unexpired, use_found, as_backend_error,
  verify_api_key,
}

-- A round trip leaves the table alone.
next_answer-keys :
    (outages : List Bool) (w t : KeyStore)
    → next_answer outages w ≡ (ok tt, t)
    → t.api_keys ≡ w.api_keys
next_answer-keys [] w t e = ap (λ p. p.1.api_keys) (sym e)
next_answer-keys (true ∷ rest) w t e = absurd (let k = pair_result e in cc)
next_answer-keys (false ∷ rest) w t e = ap (λ p. p.1.api_keys) (sym e)

round_trip-keys : (w t : KeyStore) → round_trip w ≡ (ok tt, t) → t.api_keys ≡ w.api_keys
unfolding round_trip
round_trip-keys w t e = next_answer-keys w.outages w t e

-- An active row that has not expired, and that its use has counted.
pub record IsUsed (now : ℕ) (key : String) (w : KeyStore) (row : ApiKey) (w' : KeyStore)
    : Type 0 where
  pub old : ApiKey
  pub stored : get w.api_keys key ≡ some old
  pub is_active : is_true old.is_active ≡ true
  pub unexpired : is_expired now old.expires_at ≡ ok false
  pub row_eq : row ≡ counted now old
  pub written : w'.api_keys ≡ put w.api_keys old.key (counted now old)

pub only_active-some :
    (o : Option ApiKey) (row : ApiKey)
    → only_active o ≡ some row
    → (o ≡ some row) × (is_true row.is_active ≡ true)
only_active-some none row e = absurd (cc)
only_active-some (some r) row e = elim (Bool-cases (is_true r.is_active)) [
  | inl active ↦
      let same : r ≡ row = some_eq r row (rw active at e) in
      (ap some same, subst (λ (x : ApiKey). is_true x.is_active ≡ true) same active)
  | inr inactive ↦ absurd (let k = rw inactive at e in cc)
]

some_result :
    (a b : Option ApiKey) → ◌≡◌ {A = Result AuthError (Option ApiKey)} (ok a) (ok b) → a ≡ b
some_result a b e = cc

module _ (now : ℕ) where
  use_key-written :
      (row : ApiKey) (w : KeyStore) (found : ApiKey) (w' : KeyStore)
      → use_key now row w ≡ (ok (some found), w')
      → (found ≡ counted now row) × (w'.api_keys ≡ put w.api_keys row.key (counted now row))
  unfolding use_key ◌>>=◌
  use_key-written row w found w' e =
      let (_, t, first, rest) = bind_returned round_trip _ w (some found) w' e in
      (
        sym (some_eq _ found (some_result _ _ (pair_result rest))),
        ap (λ (s : KeyStore). s.api_keys) (sym (pair_state rest))
            ∙ ap (λ d. put d row.key (counted now row)) (round_trip-keys w t first),
      )

  find_key-stored :
      (key : String) (w : KeyStore) (o : Option ApiKey) (t : KeyStore)
      → find_key key w ≡ (ok o, t)
      → (only_active (get w.api_keys key) ≡ o) × (t.api_keys ≡ w.api_keys)
  unfolding find_key ◌>>=◌
  find_key-stored key w o t e =
      let (_, t1, first, rest) = bind_returned round_trip _ w o t e in
      let kept = round_trip-keys w t1 first in
      (
        ap (λ d. only_active (get d key)) (sym kept) ∙ some_result _ _ (pair_result rest),
        ap (λ (s : KeyStore). s.api_keys) (sym (pair_state rest)) ∙ kept,
      )

  use_unexpired-IsUsed :
      (key : String) (w : KeyStore) (old : ApiKey) (expired : Bool) (t : KeyStore) (row : ApiKey)
      (w' : KeyStore)
      → get w.api_keys key ≡ some old
      → is_true old.is_active ≡ true
      → t.api_keys ≡ w.api_keys
      → is_expired now old.expires_at ≡ ok expired
      → use_unexpired now old expired t ≡ (ok (some row), w')
      → IsUsed now key w row w'
  unfolding ◌>>=◌
  use_unexpired-IsUsed key w old true t row w' stored active kept known e =
      absurd (let k = some_result _ _ (pair_result e) in cc)
  use_unexpired-IsUsed key w old false t row w' stored active kept known e =
      let (same, written) = use_key-written old t row w' e in
      record {
        old = old;
        stored = stored;
        is_active = active;
        unexpired = known;
        row_eq = same;
        written = written ∙ ap (λ d. put d old.key (counted now old)) kept;
      }

  use_found-IsUsed :
      (key : String) (w : KeyStore) (o : Option ApiKey) (t : KeyStore) (row : ApiKey)
      (w' : KeyStore)
      → only_active (get w.api_keys key) ≡ o
      → t.api_keys ≡ w.api_keys
      → use_found now o t ≡ (ok (some row), w')
      → IsUsed now key w row w'
  unfolding ◌>>=◌
  use_found-IsUsed key w none t row w' stored kept e =
      absurd (let k = some_result _ _ (pair_result e) in cc)
  use_found-IsUsed key w (some old) t row w' stored kept e =
      let (expired, t1, first, rest) =
        bind_returned (lift (is_expired now old.expires_at)) (use_unexpired now old) t (some row) w'
          e in
      let (found, active) = only_active-some (get w.api_keys key) old stored in
      let kept1 = ap (λ (s : KeyStore). s.api_keys) (sym (pair_state first)) ∙ kept in
      use_unexpired-IsUsed key w old expired t1 row w' found active kept1 (pair_result first) rest

  reraises : Reraises as_backend_error
  unfolding ◌>>=◌
  reraises (http code detail) = (http code detail, λ s. refl)
  reraises backend_error = (backend_error, λ s. refl)
  reraises database_error = (backend_error, λ s. refl)
  reraises type_error = (type_error, λ s. refl)

  -- A key of the environment, which changes nothing, or a row that was used.
  abbrev pub IsVerified : List String → String → KeyStore → ApiKey → KeyStore → Type 0
  IsVerified valid_api_keys key w row w' =
      ((has valid_api_keys key ≡ true) × (row ≡ environment_key key) × (w' ≡ w))
      ⊎ IsUsed now key w row w'

  pub verify_api_key-IsVerified :
      (valid_api_keys : List String) (key : String) (w : KeyStore) (row : ApiKey) (w' : KeyStore)
      → verify_api_key valid_api_keys now key w ≡ (ok (some row), w')
      → (key_format key ≡ true) × IsVerified valid_api_keys key w row w'
  unfolding verify_api_key ◌>>=◌
  verify_api_key-IsVerified valid_api_keys key w row w' e =
      let body = try_returned as_backend_error _ w (some row) w' reraises e in
      elim (Bool-cases (key_format key)) [
        | inr bad ↦ absurd (let k = some_result _ _ (pair_result (rw bad at body)) in cc)
        | inl good ↦ (
          good,
          elim (Bool-cases (has valid_api_keys key)) [
            | inl known ↦
                let from = rw (good, known) at body in
                inl (
                  known,
                  sym (some_eq _ row (some_result _ _ (pair_result from))),
                  sym (pair_state from),
                )
            | inr unknown ↦
                let from = rw (good, unknown) at body in
                let (o, t, first, rest) =
                  bind_returned (find_key key) (use_found now) w (some row) w' from in
                let (stored, kept) = find_key-stored key w o t first in
                inr (use_found-IsUsed key w o t row w' stored kept rest)
          ],
        )
      ]
