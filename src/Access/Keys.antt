-- ===== src/Access/Keys.antt =====
-- API keys: the row (apps/api/models/database_models.py), its verification and the principal that is
-- made of it (apps/api/dependencies/auth.py, apps/api/policy/authentication.py).
use kra_analysis.Prelude.{
  ℕ, ◌+◌, String, List, [], ◌∷◌, Option, none, some, Bool, true, false, not, ◌&&◌, ◌||◌, all,
  length, if◌then◌else◌, leb, ltb, ◌==◌,
}
use Prim.Native.Nat.{◌/◌}
use kra_analysis.Prelude.Dict.{Dict, get, put}
use kra_analysis.Prelude.Text.{◌+++◌}
use kra_analysis.Prelude.Result.{Result, ok, err}
use kra_analysis.Prelude.Exec.{Exec, pure, raise, lift, modify, gets, ◌>>=◌, ◌>>◌, try_except}
use kra_analysis.Predictions.Conversions.{codes}
use kra_analysis.Access.Policy.{
  Principal, AuthError, http, backend_error, database_error, type_error, has,
}

-- A datetime: seconds, of UTC where it is aware of a time zone.
pub record Stamp : Type 0 where
  pub is_aware : Bool
  pub seconds : ℕ

-- The columns that the program reads or writes.
pub record ApiKey : Type 0 where
  pub key : String
  pub name : String
  pub is_active : Option Bool
  pub rate_limit : Option ℕ
  pub daily_limit : Option ℕ
  pub permissions : Option (List String)
  pub last_used_at : Option Stamp
  pub expires_at : Option Stamp
  pub total_requests : Option ℕ
  pub today_requests : Option ℕ

-- The table `api_keys` by its unique column, and whether each round trip to come fails.
pub record KeyStore : Type 0 where
  pub api_keys : Dict ApiKey
  pub outages : List Bool

abbrev pub Auth : Type 0 → Type 0
Auth A = Exec KeyStore AuthError A

abbrev pub next_answer : List Bool → Auth Unit
next_answer [] w = (ok tt, w)
next_answer (true ∷ rest) w = (err database_error, record w { outages = rest })
next_answer (false ∷ rest) w = (ok tt, record w { outages = rest })

-- An awaited call of the session that reaches the database.
unfoldable pub round_trip : Auth Unit
round_trip w = next_answer w.outages w

abbrev is_key_char : ℕ → Bool
is_key_char c =
    (leb b'a' c && leb c b'z')
    || (leb b'A' c && leb c b'Z')
    || (leb b'0' c && leb c b'9')
    || c == b'-'
    || c == b'_'

-- `$` matches in front of a newline at the end, too.
abbrev without_newline : List ℕ → List ℕ
without_newline [] = []
without_newline (c ∷ []) = if c == 10 then [] else c ∷ []
without_newline (c ∷ d ∷ cs) = c ∷ without_newline (d ∷ cs)

-- re.match(r"^[a-zA-Z0-9\-_]{10,128}$", api_key)
unfoldable pub key_format : String → Bool
key_format key =
    let text = without_newline (codes key) in
    all is_key_char text && leb 10 (length text) && leb (length text) 128

abbrev pub environment_key : String → ApiKey
environment_key key = record {
  key = key;
  name = "Environment Key";
  is_active = some true;
  rate_limit = some 100;
  daily_limit = none;
  permissions = some ("read" ∷ "write" ∷ []);
  last_used_at = none;
  expires_at = none;
  total_requests = none;
  today_requests = none;
}

abbrev pub is_true : Option Bool → Bool
is_true none = false
is_true (some b) = b

-- APIKey.key == api_key, APIKey.is_active.is_(True)
abbrev pub only_active : Option ApiKey → Option ApiKey
only_active none = none
only_active (some row) = if is_true row.is_active then some row else none

unfoldable pub find_key : String → Auth (Option ApiKey)
unfolding get
find_key key = do round_trip; gets (λ w. only_active (get w.api_keys key))

-- expires_at and expires_at < datetime.now(UTC), which is aware
unfoldable pub is_expired : ℕ → Option Stamp → Result AuthError Bool
is_expired now none = ok false
is_expired now (some t) = if t.is_aware then ok (ltb t.seconds now) else err type_error

abbrev pub or_zero : Option ℕ → ℕ
or_zero none = 0
or_zero (some n) = n

abbrev pub day : ℕ → ℕ
day seconds = seconds / 86400

-- today_requests after this request
abbrev pub counted_today : ℕ → Option Stamp → ℕ → ℕ
counted_today now none today = 1
counted_today now (some t) today = if ltb (day t.seconds) (day now) then 1 else today + 1

unfoldable pub counted : ℕ → ApiKey → ApiKey
counted now row = record row {
  last_used_at = some (record { is_aware = true; seconds = now });
  total_requests = some (or_zero row.total_requests + 1);
  today_requests = some (counted_today now row.last_used_at (or_zero row.today_requests));
}

-- The changed row is written by the commit.
unfoldable pub use_key : ℕ → ApiKey → Auth (Option ApiKey)
unfolding counted put
use_key now row = do
  round_trip
  modify (λ w. record w { api_keys = put w.api_keys row.key (counted now row) })
  pure (some (counted now row))

abbrev pub use_unexpired : ℕ → ApiKey → Bool → Auth (Option ApiKey)
use_unexpired now row true = pure none
use_unexpired now row false = use_key now row

abbrev pub use_found : ℕ → Option ApiKey → Auth (Option ApiKey)
use_found now none = pure none
use_found now (some row) = lift (is_expired now row.expires_at) >>= use_unexpired now row

abbrev pub as_backend_error : AuthError → Auth (Option ApiKey)
as_backend_error database_error = raise backend_error
as_backend_error backend_error = raise backend_error
as_backend_error (http code detail) = raise (http code detail)
as_backend_error type_error = raise type_error

-- `settings.valid_api_keys` is the first argument.
abbrev pub known_key : List String → ℕ → String → Auth (Option ApiKey)
known_key valid_api_keys now key =
    if not (key_format key)
    then pure none
    else if has valid_api_keys key
    then pure (some (environment_key key))
    else (find_key key >>= use_found now)

unfoldable pub verify_api_key : List String → ℕ → String → Auth (Option ApiKey)
unfolding key_format find_key is_expired use_key
verify_api_key valid_api_keys now key =
    try_except (known_key valid_api_keys now key) as_backend_error

-- permissions or []
abbrev pub or_no_permissions : Option (List String) → List String
or_no_permissions none = []
or_no_permissions (some permissions) = permissions

unfoldable pub authenticate_api_key : String → ApiKey → Bool → Principal
authenticate_api_key presented row is_environment = record {
  principal_id = (if is_environment then "env:" else "api_key:") +++ presented;
  subject_id = presented;
  owner_ref = presented;
  credential_id = presented;
  display_name = some row.name;
  auth_method = "api_key";
  permissions = or_no_permissions row.permissions;
  limits = record { rate_limit_per_minute = row.rate_limit; daily_request_limit = row.daily_limit };
  is_environment_key = is_environment;
}
