-- ===== src/Access/RateLimit.antt =====
-- apps/api/middleware/rate_limit.py. Redis is a parameter: its client, the pipeline of four commands
-- on a sorted set, and the commands on a counter.
use kra_analysis.Prelude.{
  ℕ, ◌*◌, String, List, [], ◌∷◌, Option, none, some, Bool, true, false, not, ◌||◌, any,
  if◌then◌else◌, leb, str_eq,
}
use kra_analysis.Prelude.Value.{ℤ, pos}
use kra_analysis.Prelude.Integers.{negate, ◌+ℤ◌}
use kra_analysis.Prelude.Text.{◌+++◌, show_ℕ}
use kra_analysis.Prelude.Result.{Result, ok, err}
use kra_analysis.Prelude.Exec.{Exec, raise, try_except}

-- An exception of the application: an HTTPException, or another one.
pub data AppError : Type 0 where
  http_exception : ℕ → String → AppError
  other_exception : String → AppError

-- What the middleware reads of a request.
pub record ClientRequest : Type 0 where
  pub path : String
  pub x_api_key : Option String
  pub client_host : Option String

-- settings.environment and settings.rate_limit_enabled
pub record RateSettings : Type 0 where
  pub environment : String
  pub rate_limit_enabled : Bool

pub record RateLimitMiddleware : Type 0 where
  pub calls : ℕ
  pub period : ℕ

-- time.time() as whole seconds, and its str().
pub record Moment : Type 0 where
  pub seconds : ℕ
  pub text : String

-- A command of the pipeline: on the members of a sorted set by their scores, or on its time to live.
pub data RedisCommand : Type 0 where
  zremrangebyscore : String → ℤ → ℤ → RedisCommand
  zadd : String → String → ℤ → RedisCommand
  zcount : String → ℤ → ℤ → RedisCommand
  expire : String → ℕ → RedisCommand

-- The client of get_redis: whether it has pipelines, and what executing a pipeline answers.
pub record RedisClient (R : Type 0) : Type 0 where
  pub has_pipeline : Bool
  pub execute : List RedisCommand → Exec R String (List ℕ)

abbrev host_or_unknown : Option String → String
host_or_unknown none = "unknown"
host_or_unknown (some host) = host

abbrev client_of : Option String → Option String → String
client_of none host = "ip:" +++ host_or_unknown host
client_of (some key) host =
    if str_eq key "" then "ip:" +++ host_or_unknown host else "api_key:" +++ key

unfoldable pub get_client_id : ClientRequest → String
get_client_id request = client_of request.x_api_key request.client_host

abbrev pub window_commands : String → ℕ → Moment → List RedisCommand
window_commands key period now =
    let start = pos now.seconds +ℤ negate (pos period) in
    zremrangebyscore key (pos 0) start
    ∷ zadd key now.text (pos now.seconds)
    ∷ zcount key start (pos now.seconds)
    ∷ expire key (period * 2)
    ∷ []

unfoldable pub pipeline_commands : RateLimitMiddleware → ClientRequest → Moment → List RedisCommand
unfolding get_client_id
pipeline_commands m request now =
    window_commands ("rate_limit:" +++ get_client_id request) m.period now

-- results[2]
abbrev pub request_count : Result String (List ℕ) → Result String ℕ
request_count (ok (removed ∷ added ∷ count ∷ results)) = ok count
request_count (ok []) = err "list index out of range"
request_count (ok (removed ∷ [])) = err "list index out of range"
request_count (ok (removed ∷ added ∷ [])) = err "list index out of range"
request_count (err e) = err e

-- A failure lets the request through.
unfoldable pub within_calls : ℕ → Result String ℕ → Bool
within_calls calls (ok count) = leb count calls
within_calls calls (err e) = true

-- settings.environment in {"test", "development"} or not settings.rate_limit_enabled
unfoldable pub is_bypassed : RateSettings → Bool
is_bypassed s =
    str_eq s.environment "test" || str_eq s.environment "development" || not s.rate_limit_enabled

unfoldable pub is_excluded : String → Bool
is_excluded path = any (λ p. str_eq path p) ("/health" ∷ "/docs" ∷ "/redoc" ∷ "/openapi.json" ∷ [])

unfoldable pub exceeded : RateLimitMiddleware → AppError
unfolding show_ℕ
exceeded m = http_exception 429 (
    "Rate limit exceeded. Maximum "
    +++ show_ℕ m.calls
    +++ " requests per "
    +++ show_ℕ m.period
    +++ " seconds.")

module _ {W A : Type 0} (call_next : Exec W AppError A) where
  -- The handlers of the second try: any exception but an HTTPException leads to another call.
  abbrev pub unless_http : AppError → Exec W AppError A
  unless_http (http_exception code detail) = raise (http_exception code detail)
  unless_http (other_exception e) = call_next

  unfoldable pub call_guarded : Exec W AppError A
  call_guarded = try_except call_next unless_http

  -- In the first try, every exception does.
  unfoldable pub call_bypassed : Exec W AppError A
  call_bypassed = try_except call_next (λ e. call_next)

  abbrev pub if_within : RateLimitMiddleware → Bool → Exec W AppError A
  if_within m true = call_guarded
  if_within m false = raise (exceeded m)

  module _ {R : Type 0} where
    -- _check_rate_limit_redis and what follows: the answer and the states of both.
    unfoldable pub check_rate_limit_redis :
        RateLimitMiddleware
        → ClientRequest
        → Moment
        → RedisClient R
        → W
        → R
        → (Result AppError A × W) × R
    unfolding pipeline_commands within_calls
    check_rate_limit_redis m request now client w r =
        let results = client.execute (pipeline_commands m request now) r in
        (if_within m (within_calls m.calls (request_count results.0)) w, results.1)

    -- The argument says whether the client has pipelines.
    abbrev pub with_pipeline :
        RateLimitMiddleware
        → ClientRequest
        → Moment
        → RedisClient R
        → Bool
        → W
        → R
        → (Result AppError A × W) × R
    with_pipeline m request now client true w r = check_rate_limit_redis m request now client w r
    with_pipeline m request now client false w r = (call_guarded w, r)

    abbrev pub limit_with :
        RateLimitMiddleware
        → ClientRequest
        → Moment
        → Result String (RedisClient R)
        → W
        → R
        → (Result AppError A × W) × R
    limit_with m request now (err e) w r = (call_next w, r)
    limit_with m request now (ok client) w r =
        with_pipeline m request now client client.has_pipeline w r

    unfoldable pub limit_settled :
        RateLimitMiddleware
        → ClientRequest
        → Moment
        → Result String (RedisClient R)
        → Result String RateSettings
        → W
        → R
        → (Result AppError A × W) × R
    unfolding is_bypassed is_excluded check_rate_limit_redis
    limit_settled m request now redis (err e) w r = (call_next w, r)
    limit_settled m request now redis (ok settings) w r =
        if is_bypassed settings
        then (call_bypassed w, r)
        else if is_excluded request.path
        then (call_next w, r)
        else limit_with m request now redis w r

    -- RateLimitMiddleware.dispatch: the settings and the client of Redis, or the exception of reading them.
    unfoldable pub limit_request :
        RateLimitMiddleware
        → ClientRequest
        → Moment
        → Result String (RedisClient R)
        → Result String RateSettings
        → W
        → R
        → (Result AppError A × W) × R
    unfolding limit_settled
    limit_request m request now redis settings w r = limit_settled m request now redis settings w r
