-- ===== src/Access/KeyLimit.antt =====
-- APIKeyRateLimiter (apps/api/middleware/rate_limit.py): a counter of Redis for a key and a window.
use kra_analysis.Prelude.{ℕ, ◌+◌, ◌-◌, String, [], ◌∷◌, Bool, true, if◌then◌else◌, leb, ◌==◌}
use Prim.Native.Nat.{◌/◌}
use kra_analysis.Prelude.Text.{◌+++◌, show_ℕ}
use kra_analysis.Prelude.Dict.{Dict}
use kra_analysis.Prelude.Result.{Result, ok, err}
use kra_analysis.Prelude.Value.{ℤ, pos, negsuc}
use kra_analysis.Prelude.Exec.{Exec, pure, raise, ◌>>=◌, ◌>>◌, try_except}

-- The commands of Redis that the limiter uses, each with the exception it may raise.
pub record CounterClient (R : Type 0) : Type 0 where
  pub incr : String → Exec R String ℕ
  pub expire : String → ℕ → Exec R String Unit
  pub ttl : String → Exec R String ℤ

pub record RateInfo : Type 0 where
  pub limit : ℕ
  pub remaining : ℕ
  pub reset : ℕ

-- What is answered where Redis fails.
unfoldable pub degraded : ℕ → Bool × RateInfo
degraded limit = (true, record { limit = limit; remaining = limit; reset = 0 })

-- The time to live, or the window where there is none.
abbrev pub reset_after : ℤ → ℕ → ℕ
reset_after (pos n) window = if n == 0 then window else n
reset_after (negsuc n) window = window

unfoldable pub rate_info : ℕ → ℕ → ℕ → ℕ → ℤ → Bool × RateInfo
rate_info limit window now current ttl = (
  leb current limit,
  record { limit = limit; remaining = limit - current; reset = now + reset_after ttl window },
)

module _ {R : Type 0} (client : CounterClient R) where
  -- The first request of the window sets the time to live.
  abbrev pub expire_first : String → ℕ → ℕ → Exec R String Unit
  expire_first key window current = if current == 1 then client.expire key window else pure tt

  unfoldable pub count_key : String → ℕ → ℕ → ℕ → Exec R String (Bool × RateInfo)
  unfolding rate_info
  count_key key limit window now = do
    current ← client.incr key
    expire_first key window current
    ttl ← client.ttl key
    pure (rate_info limit window now current ttl)

-- The window of the key, and the exception of a window of 0 seconds.
abbrev pub rate_key : String → ℕ → ℕ → Result String String
rate_key api_key window now =
    if window == 0
    then err "float floor division by zero"
    else ok ("api_rate:" +++ api_key +++ ":" +++ show_ℕ (now / window))

module _ {R : Type 0} where
  abbrev pub counted_or_degraded :
      CounterClient R → ℕ → ℕ → ℕ → Result String String → Exec R String (Bool × RateInfo)
  counted_or_degraded client limit window now (ok key) =
      try_except (count_key client key limit window now) (λ e. pure (degraded limit))
  counted_or_degraded client limit window now (err e) = raise e

  -- APIKeyRateLimiter.check_rate_limit. `now` is when the key is made and `later` when the answer is.
  unfoldable pub check_rate_limit :
      Result String (CounterClient R) → String → ℕ → ℕ → ℕ → ℕ → Exec R String (Bool × RateInfo)
  unfolding degraded count_key show_ℕ
  check_rate_limit (err e) api_key limit window now later = pure (degraded limit)
  check_rate_limit (ok client) api_key limit window now later =
      counted_or_degraded client limit window later (rate_key api_key window now)

unfoldable pub get_headers : RateInfo → Dict String
unfolding show_ℕ
get_headers info =
    ("X-RateLimit-Limit", show_ℕ info.limit)
    ∷ ("X-RateLimit-Remaining", show_ℕ info.remaining)
    ∷ ("X-RateLimit-Reset", show_ℕ info.reset)
    ∷ []
