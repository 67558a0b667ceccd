-- ===== src/Access/Examples.antt =====
-- Requests that present a key, on concrete tables.
use kra_analysis.Prelude.{
  ℕ, String, List, [], ◌∷◌, none, some, true, false, ◌≡◌, refl, ◌≤◌, arith, all, str_eq,
}
use kra_analysis.Prelude.Dict.{get}
use kra_analysis.Prelude.Result.{ok}
use kra_analysis.Prelude.Exec.{◌>>=◌, try_except}
use kra_analysis.Access.Granted.{IsVerified}
use kra_analysis.Access.Policy.{PolicyAction, has, reserve, required_permissions}
use kra_analysis.Access.Keys.{ApiKey, KeyStore, counted, round_trip, key_format, or_no_permissions}
use kra_analysis.Access.Requests.{
  Admission, require_action, principal_of, is_over_limit, resolve_presented_api_key,
}
use kra_analysis.Access.Admitted.{require_action-Verified}
use kra_analysis.Access.Races.{admitted_together, calm_store, admitted_together-length}
use kra_analysis.Access.Limits.{KeyRequest, requests, requests-le-daily_limit}

abbrev key : String
key = "client-key-01"

abbrev row : ApiKey
row = record {
  key = "client-key-01";
  name = "client";
  is_active = some true;
  rate_limit = some 100;
  daily_limit = some 2;
  permissions = some ("read" ∷ []);
  last_used_at = none;
  expires_at = none;
  total_requests = none;
  today_requests = none;
}

abbrev store : KeyStore
store = record { api_keys = (key, row) ∷ []; outages = [] }

abbrev read_jobs : PolicyAction
read_jobs = PolicyAction.jobs_read

abbrev asked_at : ℕ → KeyRequest
asked_at time = record { time = time; x_api_key = some key; api_key = none; action = read_jobs }

-- Four requests of a day, one with the key in its query.
abbrev asked : List KeyRequest
asked =
    asked_at 86400
    ∷ record (asked_at 86500) { x_api_key = none; api_key = some key }
    ∷ asked_at 86600
    ∷ asked_at 86700
    ∷ []

-- Two of them are admitted.
admitted_two : (requests [] asked store).0 ≡ 2
unfolding requests require_action ◌>>=◌ try_except round_trip
admitted_two = refl

requests-le-daily_limit_example : (requests [] asked store).0 ≤ 2
unfolding get resolve_presented_api_key
requests-le-daily_limit_example =
    requests-le-daily_limit 1 [] key 2 refl (omega arith) asked store row refl refl refl
      ((refl, refl), ((refl, refl), ((refl, refl), ((refl, refl), tt))))

-- Three requests that read before the first one commits are let through, though the limit is two.
admitted_together-length_example :
    (admitted_together [] key (86400 ∷ 86401 ∷ 86402 ∷ []) (calm_store ((key, row) ∷ []))).0 ≡ 3
unfolding get key_format is_over_limit counted
admitted_together-length_example =
    admitted_together-length [] key row refl refl refl refl (86400 ∷ 86401 ∷ 86402 ∷ [])
      ((key, row) ∷ []) refl (refl, (refl, (refl, tt)))

abbrev admission : Admission
admission = record {
  principal = principal_of [] none (some key) row;
  policy_action = read_jobs;
  usage_reservation = reserve (principal_of [] none (some key) row) read_jobs 1;
}

abbrev used_store : KeyStore
used_store = record { api_keys = (key, counted 86400 row) ∷ []; outages = [] }

admits : require_action [] 86400 none (some key) read_jobs store ≡ (ok admission, used_store)
unfolding require_action ◌>>=◌ try_except round_trip
admits = refl

require_action-Verified_example :
    (found : ApiKey) × ((presented : String) × (resolve_presented_api_key none (some key)
        ≡ some presented)
      × (str_eq presented "" ≡ false)
      × (key_format presented ≡ true)
      × IsVerified 86400 [] presented store found used_store
      × (is_over_limit found ≡ false))
    × (all (has (or_no_permissions found.permissions)) (required_permissions read_jobs) ≡ true)
    × (admission.principal ≡ principal_of [] none (some key) found)
    × (admission.usage_reservation ≡ reserve (principal_of [] none (some key) found) read_jobs 1)
require_action-Verified_example =
    require_action-Verified [] 86400 none (some key) read_jobs store admission used_store admits
