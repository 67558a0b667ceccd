-- ===== src/Access/Admitted.antt =====
-- What a request that is admitted has shown.
use kra_analysis.Prelude.{
  ℕ, String, List, Option, none, some, true, false, all, Bool-cases, ◌≡◌, refl, sym, subst, ap, ◌∙◌,
  inl, inr, str_eq,
}
use kra_analysis.Prelude.Result.{Result, ok, err}
use kra_analysis.Prelude.Exec.{pure, lift, ◌>>=◌, try_except}
use kra_analysis.Prelude.Exec.Returned.{
  pair_result, pair_state, bind_returned, try_returned, Reraises,
}
use kra_analysis.Access.Policy.{
  Principal, PolicyAction, AuthError, http, backend_error, database_error, type_error, has,
  authorize, reserve, required_permissions,
}
use kra_analysis.Access.Keys.{
  ApiKey, KeyStore, key_format, or_no_permissions, verify_api_key, authenticate_api_key,
}
use kra_analysis.Access.Granted.{IsVerified, verify_api_key-IsVerified}
use kra_analysis.Access.Requests.{
  Admission, admitted, is_over_limit, within_limit, unavailable, given_key, principal_of,
  resolve_presented_api_key, require_api_key_record, require_principal, require_action,
}

same_ok {ℓ} : {E A : Type ℓ} (a b : A) → ◌≡◌ {A = Result E A} (ok a) (ok b) → a ≡ b
same_ok a b e = cc

unavailable_reraises : Reraises unavailable
unfolding ◌>>=◌
unavailable_reraises (http code detail) = (http code detail, λ s. refl)
unavailable_reraises backend_error = (http 503 "Authentication backend unavailable", λ s. refl)
unavailable_reraises database_error = (database_error, λ s. refl)
unavailable_reraises type_error = (type_error, λ s. refl)

within_limit-ok :
    (found : Option ApiKey) (row : ApiKey)
    → within_limit found ≡ ok row
    → (found ≡ some row) × (is_over_limit row ≡ false)
within_limit-ok none row e = absurd (cc)
within_limit-ok (some r) row e = elim (Bool-cases (is_over_limit r)) [
  | inl over ↦ absurd (let k = rw over at e in cc)
  | inr within ↦
      let same = same_ok r row (rw within at e) in
      (ap some same, ap is_over_limit (sym same) ∙ within)
]

module _ (valid_api_keys : List String) (now : ℕ) where
  -- The record of a key that is verified and not over its limit.
  abbrev Verified : Option String → KeyStore → ApiKey → KeyStore → Type 0
  Verified presented w row w' =
      (key : String) × (presented ≡ some key)
      × (str_eq key "" ≡ false)
      × (key_format key ≡ true)
      × IsVerified now valid_api_keys key w row w'
      × (is_over_limit row ≡ false)

  given_key-Verified :
      (presented : Option String) (w : KeyStore) (row : ApiKey) (w' : KeyStore)
      → given_key valid_api_keys now presented w ≡ (ok row, w')
      → Verified presented w row w'
  unfolding ◌>>=◌
  given_key-Verified none w row w' e = absurd (let k = pair_result e in cc)
  given_key-Verified (some key) w row w' e = elim (Bool-cases (str_eq key "")) [
    | inl empty ↦ absurd (let k = pair_result (rw empty at e) in cc)
    | inr present ↦
        let from = rw present at e in
        let (found, t, first, rest) =
          bind_returned (try_except (verify_api_key valid_api_keys now key) unavailable)
            (λ found. lift (within_limit found)) w row w' from in
        let (known, within) = within_limit-ok found row (pair_result rest) in
        let body =
          try_returned unavailable (verify_api_key valid_api_keys now key) w found t
            unavailable_reraises first in
        let (form, verified) =
          verify_api_key-IsVerified now valid_api_keys key w row w'
            (body ∙ (λ i. (ok (known i), (pair_state rest) i))) in
        (key, refl, present, form, verified, within)
  ]

  authorize-ok :
      (principal : Principal) (action : PolicyAction)
      → authorize principal action ≡ ok tt
      → all (has principal.permissions) (required_permissions action) ≡ true
  unfolding authorize
  authorize-ok principal action e =
      elim (Bool-cases (all (has principal.permissions) (required_permissions action))) [
        | inl yes_all ↦ yes_all
        | inr missing ↦ absurd (let k = rw missing at e in cc)
      ]

  admitted-ok :
      (principal : Principal) (action : PolicyAction) (answer : Result AuthError Unit)
      (adm : Admission)
      → admitted principal action answer ≡ ok adm
      → (answer ≡ ok tt)
        × (adm.principal ≡ principal)
        × (adm.usage_reservation ≡ reserve principal action 1)
  admitted-ok principal action (ok done) adm e =
      let same = same_ok _ adm e in
      (
        refl,
        ap (λ (a : Admission). a.principal) (sym same),
        ap (λ (a : Admission). a.usage_reservation) (sym same),
      )
  admitted-ok principal action (err x) adm e = absurd (cc)

  -- A request that require_action admits has presented a key that is no empty text and has the
  -- format of a key. The key is one of the environment, and nothing was written; or it is that of an
  -- active row that has not expired, whose use was counted and written, and the row is not over its
  -- daily limit. The permissions of the key have all that the action requires, and the principal and
  -- the reservation are made of that key.
  pub require_action-Verified :
      (x_api_key api_key : Option String) (action : PolicyAction) (w : KeyStore) (adm : Admission)
      (w' : KeyStore)
      → require_action valid_api_keys now x_api_key api_key action w ≡ (ok adm, w')
      → (row : ApiKey) × ((key : String) × (resolve_presented_api_key x_api_key api_key ≡ some key)
          × (str_eq key "" ≡ false)
          × (key_format key ≡ true)
          × IsVerified now valid_api_keys key w row w'
          × (is_over_limit row ≡ false))
        × (all (has (or_no_permissions row.permissions)) (required_permissions action) ≡ true)
        × (adm.principal ≡ principal_of valid_api_keys x_api_key api_key row)
        × (adm.usage_reservation
            ≡ reserve (principal_of valid_api_keys x_api_key api_key row) action 1)
  unfolding require_action require_principal require_api_key_record principal_of
      authenticate_api_key ◌>>=◌
  require_action-Verified x_api_key api_key action w adm w' e =
      let (principal, t, first, rest) =
        bind_returned (require_principal valid_api_keys now x_api_key api_key)
          (λ principal. lift (admitted principal action (authorize principal action))) w adm w' e in
      let (row, t1, record_first, record_rest) =
        bind_returned (require_api_key_record valid_api_keys now x_api_key api_key)
          (λ row. pure (principal_of valid_api_keys x_api_key api_key row)) w principal t first in
      let (key, presented, filled, form, verified, within) =
        given_key-Verified (resolve_presented_api_key x_api_key api_key) w row t1 record_first in
      let made =
        same_ok (principal_of valid_api_keys x_api_key api_key row) principal
          (pair_result record_rest) in
      let (may, granted, reserved) =
        admitted-ok principal action (authorize principal action) adm (pair_result rest) in
      let state = pair_state record_rest ∙ pair_state rest in
      (
        row,
        (
          key,
          presented,
          filled,
          form,
          subst (IsVerified now valid_api_keys key w row) state verified,
          within,
        ),
        ap (λ (q : Principal). all (has q.permissions) (required_permissions action)) made
            ∙ authorize-ok principal action may,
        granted ∙ sym made,
        reserved ∙ ap (λ (q : Principal). reserve q action 1) (sym made),
      )
