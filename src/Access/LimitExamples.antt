-- ===== src/Access/LimitExamples.antt =====
-- The rate limiter on concrete requests.
use kra_analysis.Prelude.{
  ℕ, suc, String, List, [], ◌∷◌, none, some, true, length, ◌==◌, if◌then◌else◌, ◌≡◌, refl,
}
use kra_analysis.Prelude.Result.{ok, err}
use kra_analysis.Prelude.Exec.{Exec, ◌>>=◌}
use kra_analysis.Access.RateLimit.{
  AppError, other_exception, ClientRequest, RateSettings, RateLimitMiddleware, RedisClient,
  RedisCommand, zremrangebyscore, zadd, zcount, expire, Moment, is_bypassed, is_excluded,
  within_calls, pipeline_commands, exceeded, limit_request, limit_settled, check_rate_limit_redis,
}
use kra_analysis.Access.Limited.{limit_request-Settled, limit_request-twice, Settled}

-- An application that counts how often it ran.
abbrev application : Exec ℕ AppError String
application n = (ok "done", suc n)

-- One that fails the first time.
abbrev failing : Exec ℕ AppError String
failing n = if n == 0 then (err (other_exception "broken"), suc n) else (ok "done", suc n)

-- Redis with the members of the set of one client: it keeps all and counts all.
abbrev run_command : RedisCommand → List String → ℕ × List String
run_command (zremrangebyscore key low high) members = (0, members)
run_command (zadd key member score) members = (1, member ∷ members)
run_command (zcount key low high) members = (length members, members)
run_command (expire key seconds) members = (1, members)

abbrev run_commands : List RedisCommand → List String → List ℕ × List String
run_commands [] members = ([], members)
run_commands (c ∷ cs) members =
    let (n, after) = run_command c members in
    let (ns, last) = run_commands cs after in (n ∷ ns, last)

abbrev redis : RedisClient (List String)
redis = record {
  has_pipeline = true;
  execute = λ commands members.
      let (results, after) = run_commands commands members in (ok results, after);
}

abbrev now : Moment
now = record { seconds = 130; text = "130.0" }

abbrev limiter : RateLimitMiddleware
limiter = record { calls = 2; period = 60 }

abbrev production : RateSettings
production = record { environment = "production"; rate_limit_enabled = true }

abbrev request : ClientRequest
request = record { path = "/api/v2/jobs"; x_api_key = some "client-key-01"; client_host = none }

-- The third request within the period is refused, and the application does not run.
third_refused :
    (limit_request application limiter request now
      (ok redis)
      (ok production)
      7
      ("120.0" ∷ "110.0" ∷ [])).0
    ≡ (err (exceeded limiter), 7)
unfolding limit_request limit_settled check_rate_limit_redis within_calls is_bypassed is_excluded
    ◌>>=◌
third_refused = refl

limit_request-Settled_example :
    Settled application limiter request now 7 8 "done" refl
      (ok redis)
      (ok production)
      ("120.0" ∷ "110.0" ∷ [])
      (limit_request application limiter request now
        (ok redis)
        (ok production)
        7
        ("120.0" ∷ "110.0" ∷ [])).0
limit_request-Settled_example =
    limit_request-Settled application limiter request now 7 8 "done" refl (ok redis) (ok production)
      ("120.0" ∷ "110.0" ∷ [])

limit_request-twice_example :
    (limit_request failing limiter request now (ok redis) (ok production) 0 []).0 ≡ (ok "done", 2)
unfolding is_bypassed is_excluded within_calls pipeline_commands
limit_request-twice_example =
    limit_request-twice failing limiter request now 0 1 "broken" production redis [] refl refl refl
      refl refl
