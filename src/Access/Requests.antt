-- ===== src/Access/Requests.antt =====
-- apps/api/dependencies/auth.py: from the headers of a request to a principal that may act.
use kra_analysis.Prelude.{
  ℕ, String, List, Option, none, some, Bool, false, not, ◌&&◌, all, if◌then◌else◌, ltb, ◌==◌,
  str_eq,
}
use kra_analysis.Prelude.Result.{Result, ok, err}
use kra_analysis.Prelude.Exec.{pure, raise, lift, ◌>>=◌, try_except}
use kra_analysis.Access.Policy.{
  Principal, PolicyAction, AuthError, http, backend_error, database_error, type_error, has,
  UsageReservation, authorize, reserve,
}
use kra_analysis.Access.Keys.{ApiKey, Auth, or_zero, verify_api_key, authenticate_api_key}

unfoldable pub resolve_presented_api_key : Option String → Option String → Option String
resolve_presented_api_key none api_key = api_key
resolve_presented_api_key (some x_api_key) api_key = some x_api_key

abbrev pub unavailable : AuthError → Auth (Option ApiKey)
unavailable backend_error = raise (http 503 "Authentication backend unavailable")
unavailable (http code detail) = raise (http code detail)
unavailable database_error = raise database_error
unavailable type_error = raise type_error

-- daily_limit and today_requests and today_requests > daily_limit
unfoldable pub is_over_limit : ApiKey → Bool
is_over_limit row =
    let limit = or_zero row.daily_limit in
    let today = or_zero row.today_requests in
    not (limit == 0) && not (today == 0) && ltb limit today

abbrev pub within_limit : Option ApiKey → Result AuthError ApiKey
within_limit none = err (http 401 "Invalid API key")
within_limit (some row) =
    if is_over_limit row then err (http 429 "Daily request limit exceeded") else ok row

abbrev pub checked_key : List String → ℕ → String → Auth ApiKey
checked_key valid_api_keys now key =
    try_except (verify_api_key valid_api_keys now key) unavailable
    >>= (λ found. lift (within_limit found))

abbrev pub given_key : List String → ℕ → Option String → Auth ApiKey
given_key valid_api_keys now none = raise (http 401 "API key required")
given_key valid_api_keys now (some key) =
    if str_eq key ""
    then raise (http 401 "API key required")
    else checked_key valid_api_keys now key

unfoldable pub require_api_key_record :
    List String → ℕ → Option String → Option String → Auth ApiKey
unfolding resolve_presented_api_key verify_api_key is_over_limit
require_api_key_record valid_api_keys now x_api_key api_key =
    given_key valid_api_keys now (resolve_presented_api_key x_api_key api_key)

unfoldable pub require_api_key : List String → ℕ → Option String → Option String → Auth String
unfolding require_api_key_record
require_api_key valid_api_keys now x_api_key api_key =
    require_api_key_record valid_api_keys now x_api_key api_key >>= (λ row. pure row.key)

-- The key that was presented, or that of the record.
abbrev pub presented_or : Option String → String → String
presented_or none key = key
presented_or (some presented) key = if str_eq presented "" then key else presented

unfoldable pub principal_of : List String → Option String → Option String → ApiKey → Principal
unfolding resolve_presented_api_key authenticate_api_key
principal_of valid_api_keys x_api_key api_key row =
    let presented = presented_or (resolve_presented_api_key x_api_key api_key) row.key in
    authenticate_api_key presented row (has valid_api_keys presented)

unfoldable pub require_principal : List String → ℕ → Option String → Option String → Auth Principal
unfolding require_api_key_record principal_of
require_principal valid_api_keys now x_api_key api_key =
    require_api_key_record valid_api_keys now x_api_key api_key
    >>= (λ row. pure (principal_of valid_api_keys x_api_key api_key row))

-- What the request's state is given.
pub record Admission : Type 0 where
  pub principal : Principal
  pub policy_action : PolicyAction
  pub usage_reservation : UsageReservation

abbrev pub admitted : Principal → PolicyAction → Result AuthError Unit → Result AuthError Admission
admitted principal action (ok done) = ok (record {
  principal = principal;
  policy_action = action;
  usage_reservation = reserve principal action 1;
})
admitted principal action (err e) = err e

-- The dependency that `require_action(action)` returns, after require_principal.
unfoldable pub require_action :
    List String → ℕ → Option String → Option String → PolicyAction → Auth Admission
unfolding require_principal authorize reserve
require_action valid_api_keys now x_api_key api_key action =
    require_principal valid_api_keys now x_api_key api_key
    >>= (λ principal. lift (admitted principal action (authorize principal action)))

-- _coerce_principal
unfoldable pub coerce_principal : Option Principal → Option ApiKey → Result AuthError Principal
unfolding authenticate_api_key
coerce_principal (some principal) row = ok principal
coerce_principal none none = err (http 401 "API key required")
coerce_principal none (some row) = ok (authenticate_api_key row.key row false)

abbrev permitted : List String → Principal → Result AuthError Principal
permitted required principal =
    if all (has principal.permissions) required
    then ok principal
    else err (http 403 "Insufficient permissions")

abbrev permitted_or : List String → Result AuthError Principal → Result AuthError Principal
permitted_or required (ok principal) = permitted required principal
permitted_or required (err e) = err e

unfoldable pub require_permissions :
    List String → Option Principal → Option ApiKey → Result AuthError Principal
unfolding coerce_principal
require_permissions required principal row = permitted_or required (coerce_principal principal row)
