-- ===== src/Access/Limited.antt =====
-- What the rate limiter does with a request (apps/api/middleware/rate_limit.py).
use kra_analysis.Prelude.{
  ℕ, ◌<◌, String, true, false, if◌then◌else◌, Bool-cases, ◌≡◌, ◌⊎◌, refl, inl, inr, ◌∙◌, sym, subst,
  ap, arith,
}
use kra_analysis.Prelude.Result.{Result, ok, err}
use kra_analysis.Prelude.Exec.{Exec, ◌>>=◌, try_except}
use kra_analysis.Access.RateLimit.{
  AppError, other_exception, ClientRequest, RateSettings, RateLimitMiddleware, RedisClient,
  is_bypassed, is_excluded, within_calls, exceeded, pipeline_commands, request_count, Moment,
  call_guarded, call_bypassed, limit_request, limit_with, with_pipeline, if_within, limit_settled,
  check_rate_limit_redis,
}

within_calls-false :
    (calls : ℕ) (counted : Result String ℕ)
    → within_calls calls counted ≡ false
    → (count : ℕ) × (counted ≡ ok count) × (calls < count)
unfolding within_calls
within_calls-false calls (ok count) e = (count, refl, ground arith)
within_calls-false calls (err x) e = absurd (cc)

module _ {W A : Type 0} (call_next : Exec W AppError A) (w w' : W) (answer : Result AppError A)
    (answers : call_next w ≡ (answer, w')) where
  call_guarded-ok : (a : A) → answer ≡ ok a → call_guarded call_next w ≡ (ok a, w')
  unfolding call_guarded try_except
  call_guarded-ok a e = rw answers (rw e (refl))

  call_bypassed-ok : (a : A) → answer ≡ ok a → call_bypassed call_next w ≡ (ok a, w')
  unfolding call_bypassed try_except
  call_bypassed-ok a e = rw answers (rw e (refl))

module _ {W A R : Type 0} (call_next : Exec W AppError A) (m : RateLimitMiddleware)
    (request : ClientRequest) (now : Moment) where
  -- The limiter is on for this request, and Redis counted more requests of the client than `calls`.
  abbrev pub IsExceeded : Result String (RedisClient R) → Result String RateSettings → R → Type 0
  IsExceeded redis settings r =
      (s : RateSettings) × (settings ≡ ok s)
      × (is_bypassed s ≡ false)
      × (is_excluded request.path ≡ false)
      × (client : RedisClient R) × (redis ≡ ok client)
      × (client.has_pipeline ≡ true)
      × (count : ℕ) × (request_count (client.execute (pipeline_commands m request now) r).0
          ≡ ok count)
      × (m.calls < count)

  module _ (w w' : W) (a : A) (answers : call_next w ≡ (ok a, w')) where
    -- The application answers the request, or the limiter refuses it.
    abbrev pub Settled :
        Result String (RedisClient R)
        → Result String RateSettings
        → R
        → (Result AppError A × W)
        → Type 0
    Settled redis settings r p =
        (p ≡ (ok a, w')) ⊎ ((p ≡ (err (exceeded m), w)) × IsExceeded redis settings r)

    checked-Settled :
        (s : RateSettings) (client : RedisClient R) (r : R)
        → is_bypassed s ≡ false
        → is_excluded request.path ≡ false
        → client.has_pipeline ≡ true
        → Settled (ok client) (ok s) r (check_rate_limit_redis call_next m request now client w r).0
    unfolding check_rate_limit_redis ◌>>=◌
    checked-Settled s client r strict included has =
        let counted = request_count (client.execute (pipeline_commands m request now) r).0 in
        elim (Bool-cases (within_calls m.calls counted)) [
          | inl within ↦ inl (
              ap (λ b. if_within call_next m b w) within
              ∙ call_guarded-ok call_next w w' (ok a) answers a refl)
          | inr over ↦
              let (count, known, more) = within_calls-false m.calls counted over in
              inr (
                ap (λ b. if_within call_next m b w) over,
                (s, refl, strict, included, client, refl, has, count, known, more),
              )
        ]

    client-Settled :
        (s : RateSettings) (redis : Result String (RedisClient R)) (r : R)
        → is_bypassed s ≡ false
        → is_excluded request.path ≡ false
        → Settled redis (ok s) r (limit_with call_next m request now redis w r).0
    client-Settled s (err e) r strict included = inl answers
    client-Settled s (ok client) r strict included = elim (Bool-cases client.has_pipeline) [
      | inl has ↦
          subst
            (λ b.
              Settled (ok client) (ok s) r (with_pipeline call_next m request now client b w r).0)
            (sym has) (checked-Settled s client r strict included has)
      | inr lacks ↦ inl (
          ap (λ b. (with_pipeline call_next m request now client b w r).0) lacks
          ∙ call_guarded-ok call_next w w' (ok a) answers a refl)
    ]

    -- Where the application returns an answer to a request, that is what the middleware returns, and
    -- the application has run once; or the middleware refuses it with status 429 before the
    -- application runs, and then the settings are read and turn the limiter on, the path is not
    -- excluded, and the pipeline of Redis counted more requests of the client than are allowed.
    -- No failure of the settings or of Redis refuses a request.
    pub limit_request-Settled :
        (redis : Result String (RedisClient R)) (settings : Result String RateSettings) (r : R)
        → Settled redis settings r (limit_request call_next m request now redis settings w r).0
    unfolding limit_request limit_settled
    limit_request-Settled redis (err e) r = inl answers
    limit_request-Settled redis (ok s) r = elim (Bool-cases (is_bypassed s)) [
      | inl bypassed ↦ inl (rw bypassed (call_bypassed-ok call_next w w' (ok a) answers a refl))
      | inr strict ↦ rw strict (elim (Bool-cases (is_excluded request.path)) [
        | inl excluded ↦ inl (rw excluded answers)
        | inr included ↦
            subst
              (λ b.
                Settled redis (ok s) r
                  (if b then (call_next w, r) else limit_with call_next m request now redis w r).0)
              (sym included) (client-Settled s redis r strict included)
      ])
    ]

  -- A request that Redis lets through, and to which the application raises an exception that is no
  -- HTTPException, is given to the application a second time, and the second answer is returned.
  pub limit_request-twice :
      (w w' : W) (e : String) (s : RateSettings) (client : RedisClient R) (r : R)
      → call_next w ≡ (err (other_exception e), w')
      → is_bypassed s ≡ false
      → is_excluded request.path ≡ false
      → client.has_pipeline ≡ true
      → within_calls m.calls (request_count (client.execute (pipeline_commands m request now) r).0)
        ≡ true
      → (limit_request call_next m request now (ok client) (ok s) w r).0 ≡ call_next w'
  unfolding limit_request limit_settled check_rate_limit_redis call_guarded try_except ◌>>=◌
  limit_request-twice w w' e s client r raises strict included has within = rw strict (
      rw included (
        ap (λ b. (with_pipeline call_next m request now client b w r).0) has
        ∙ ap (λ b. if_within call_next m b w) within
        ∙ rw raises (refl)))
