-- ===== src/Access/Policy.antt =====
-- apps/api/policy: principals, the permissions of the actions, and the reservation of usage.
use kra_analysis.Prelude.{ℕ, String, List, [], ◌∷◌, Option, Bool, any, all, str_eq, if◌then◌else◌}
use kra_analysis.Prelude.Result.{Result, ok, err}

pub record PolicyLimits : Type 0 where
  pub rate_limit_per_minute : Option ℕ
  pub daily_request_limit : Option ℕ

pub record AuthenticatedPrincipal : Type 0 where
  pub principal_id : String
  pub subject_id : String
  pub owner_ref : String
  pub credential_id : String
  pub display_name : Option String
  pub auth_method : String
  pub permissions : List String
  pub limits : PolicyLimits
  pub is_environment_key : Bool

abbrev pub Principal : Type 0
Principal = AuthenticatedPrincipal

pub data PolicyAction : Type 0 where
  collection_collect collection_collect_async collection_status_read collection_result_collect
        jobs_list jobs_read jobs_cancel prediction_predict prediction_read_model_info :
      PolicyAction

-- An exception that leaves the module: the status of an HTTPException, or another one.
pub data AuthError : Type 0 where
  http : ℕ → String → AuthError
  backend_error : AuthError
  database_error : AuthError
  type_error : AuthError

-- perm in permissions
abbrev pub has : List String → String → Bool
has permissions perm = any (λ p. str_eq p perm) permissions

-- The action as a text, its value in the Literal.
unfoldable pub action_text : PolicyAction → String
action_text PolicyAction.collection_collect = "collection.collect"
action_text PolicyAction.collection_collect_async = "collection.collect_async"
action_text PolicyAction.collection_status_read = "collection.status.read"
action_text PolicyAction.collection_result_collect = "collection.result.collect"
action_text PolicyAction.jobs_list = "jobs.list"
action_text PolicyAction.jobs_read = "jobs.read"
action_text PolicyAction.jobs_cancel = "jobs.cancel"
action_text PolicyAction.prediction_predict = "prediction.predict"
action_text PolicyAction.prediction_read_model_info = "prediction.read_model_info"

-- _required_permissions: every action has one.
unfoldable pub required_permissions : PolicyAction → List String
required_permissions PolicyAction.collection_collect = "write" ∷ []
required_permissions PolicyAction.collection_collect_async = "write" ∷ []
required_permissions PolicyAction.collection_status_read = "read" ∷ []
required_permissions PolicyAction.collection_result_collect = "write" ∷ []
required_permissions PolicyAction.jobs_list = "read" ∷ []
required_permissions PolicyAction.jobs_read = "read" ∷ []
required_permissions PolicyAction.jobs_cancel = "write" ∷ []
required_permissions PolicyAction.prediction_predict = "read" ∷ []
required_permissions PolicyAction.prediction_read_model_info = "read" ∷ []

unfoldable pub authorize : Principal → PolicyAction → Result AuthError Unit
unfolding required_permissions
authorize principal action =
    if all (has principal.permissions) (required_permissions action)
    then ok tt
    else err (http 403 "Insufficient permissions")

pub record UsageReservation : Type 0 where
  pub principal_id : String
  pub owner_ref : String
  pub credential_id : String
  pub action : String
  pub units : ℕ

unfoldable pub reserve : Principal → PolicyAction → ℕ → UsageReservation
unfolding action_text
reserve principal action units = record {
  principal_id = principal.principal_id;
  owner_ref = principal.owner_ref;
  credential_id = principal.credential_id;
  action = action_text action;
  units = units;
}
