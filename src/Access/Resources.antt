-- ===== src/Access/Resources.antt =====
-- apps/api/dependencies/auth.py: which jobs, predictions and races a principal may read.
use kra_analysis.Prelude.{
  String, List, [], ◌∷◌, Option, none, some, Bool, true, false, ◌&&◌, ◌||◌, any, if◌then◌else◌,
  str_eq,
}
use kra_analysis.Prelude.Text.{◌+++◌}
use kra_analysis.Prelude.Result.{ok, err}
use kra_analysis.Prelude.Exec.{Exec, pure, raise, lift, gets, ◌>>=◌, ◌>>◌}
use kra_analysis.Access.Policy.{Principal, AuthError, http, database_error, has}
use kra_analysis.Access.Keys.{ApiKey}
use kra_analysis.Access.Requests.{coerce_principal}

-- The key of a job or of a prediction, and who created it.
pub record OwnedRow : Type 0 where
  pub id : String
  pub created_by : Option String

pub record ResourceStore : Type 0 where
  pub jobs : List OwnedRow
  pub predictions : List OwnedRow
  pub outages : List Bool

abbrev pub Reading : Type 0 → Type 0
Reading A = Exec ResourceStore AuthError A

abbrev next_answer : List Bool → Reading Unit
next_answer [] w = (ok tt, w)
next_answer (true ∷ rest) w = (err database_error, record w { outages = rest })
next_answer (false ∷ rest) w = (ok tt, record w { outages = rest })

unfoldable pub round_trip : Reading Unit
round_trip w = next_answer w.outages w

abbrev text_if_some : Option String → List String
text_if_some none = []
text_if_some (some s) = if str_eq s "" then [] else s ∷ []

abbrev add_text : String → List String → List String
add_text s texts = if str_eq s "" then texts else s ∷ texts

-- A set of texts is a list: only membership and emptiness are read.
unfoldable pub owner_candidates : Principal → List String
owner_candidates p =
    add_text p.owner_ref
      (add_text p.credential_id (add_text p.subject_id (text_if_some p.display_name)))

abbrev created_by_one : List String → Option String → Bool
created_by_one candidates none = false
created_by_one candidates (some owner) = has candidates owner

abbrev no_texts : List String → Bool
no_texts [] = true
no_texts (s ∷ texts) = false

-- or_() of no conditions is none; a comparison with NULL is not true.
unfoldable pub is_owned : List String → String → OwnedRow → Bool
is_owned candidates id row =
    str_eq row.id id && (no_texts candidates || created_by_one candidates row.created_by)

abbrev pub owned_row : Principal → String → (ResourceStore → List OwnedRow) → Reading Bool
owned_row principal id rows = do
  round_trip
  gets (λ w. any (is_owned (owner_candidates principal) id) (rows w))

unfoldable pub check_resource_access : String → String → Principal → Reading Bool
unfolding owner_candidates is_owned round_trip
check_resource_access resource_type id principal =
    if has principal.permissions "admin"
    then pure true
    else if str_eq resource_type "race"
    then pure (has principal.permissions "read")
    else if str_eq resource_type "job"
    then owned_row principal id (λ w. w.jobs)
    else if str_eq resource_type "prediction"
    then owned_row principal id (λ w. w.predictions)
    else pure false

abbrev denied_or : String → Principal → Bool → Reading Principal
denied_or resource_type principal true = pure principal
denied_or resource_type principal false =
    raise (http 403 ("Access denied to " +++ resource_type +++ " resource"))

abbrev missing_id : String → AuthError
missing_id param = http 400 ("Resource ID '" +++ param +++ "' not found in path")

abbrev with_id : String → String → Option String → Principal → Reading Principal
with_id resource_type param none principal = raise (missing_id param)
with_id resource_type param (some id) principal =
    if str_eq id ""
    then raise (missing_id param)
    else (check_resource_access resource_type id principal >>= denied_or resource_type principal)

-- The dependency that `require_resource_access(resource_type, param)` returns.
unfoldable pub require_resource_access :
    String → String → Option String → Option Principal → Option ApiKey → Reading Principal
unfolding check_resource_access coerce_principal
require_resource_access resource_type param id principal row =
    lift (coerce_principal principal row) >>= with_id resource_type param id
