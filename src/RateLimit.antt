-- ===== src/RateLimit.antt =====
-- src/shared/redis/rate-limiter.ts: a sliding window of requests in a sorted set of Redis, or in the
-- memory of the process where the pipeline is rejected. Requests are counted by the time of their arrival.
pub mod Window
use multi_tenant_collaborati.Common.{
  ℕ, ◌+◌, ◌-◌, ◌*◌, ◌/◌, Bool, true, false, Option, none, some, List, [], ◌∷◌, ◌++◌, ◌==◌, ltb,
  length, if◌then◌else◌, or_else, select, AppError, RedisEntry, redis_get, redis_set,
}

pub record LimitAnswer : Type 0 where
  pub allowed : Bool
  pub remaining : ℕ
  pub retry_after : ℕ

-- The sorted sets of Redis with their expiry, and `fallbackStore`.
pub record LimitStores : Type 0 where
  pub redis : List (RedisEntry (List ℕ))
  pub fallback : ℕ → Option (List ℕ)

-- `ts > windowStart`, with the subtraction of `windowStart` on the other side.
unfoldable pub in_window : ℕ → ℕ → List ℕ → List ℕ
in_window window_ms now times = select (λ (ts : ℕ). ltb now (ts + window_ms)) times

-- `Math.ceil(windowMs / 1000)`.
abbrev pub seconds_of : ℕ → ℕ
seconds_of ms = (ms + 999) / 1000

abbrev pub limit_answer : ℕ → ℕ → ℕ → LimitAnswer
limit_answer limit window_ms count = record {
  allowed = ltb count limit;
  remaining = limit - count - 1;
  retry_after = if ltb count limit then 0 else seconds_of window_ms;
}

abbrev set_key : ℕ → List ℕ → (ℕ → Option (List ℕ)) → ℕ → Option (List ℕ)
set_key key times store k = if k == key then some times else store k

unfoldable pub check_limit_fallback : ℕ → ℕ → ℕ → ℕ → LimitStores → LimitAnswer × LimitStores
unfolding in_window
check_limit_fallback key limit window_ms now stores =
    let timestamps = in_window window_ms now (or_else (stores.fallback key) []) in
    let count = length timestamps in
    (
      limit_answer limit window_ms count,
      if ltb count limit
          then (record stores { fallback = set_key key (timestamps ++ (now ∷ [])) stores.fallback })
          else stores,
    )

-- The pipeline: the set without what left the window is counted, the request is added to it, also
-- one that is refused, and the set expires when the window has passed.
unfoldable pub check_limit_redis : ℕ → ℕ → ℕ → ℕ → LimitStores → LimitAnswer × LimitStores
unfolding in_window
check_limit_redis key limit window_ms now stores =
    let timestamps = in_window window_ms now (or_else (redis_get now key stores.redis) []) in
    (
      limit_answer limit window_ms (length timestamps),
      record stores {
        redis = redis_set key (timestamps ++ (now ∷ [])) (now + window_ms) stores.redis;
      },
    )

-- What `pipeline.exec()` gives. The client resolves it with an error for each command that failed, as
-- while Redis is down, and rejects it only where the pipeline itself could not be run.
pub data Exec : Type 0 where
  replies command_errors rejected : Exec

-- Where the commands failed, `results?.[1]?.[1] ?? 0` counts no request, and nothing is stored.
unfoldable pub check_limit : Exec → ℕ → ℕ → ℕ → ℕ → LimitStores → LimitAnswer × LimitStores
unfolding check_limit_redis check_limit_fallback
check_limit replies key limit window_ms now stores =
    check_limit_redis key limit window_ms now stores
check_limit command_errors key limit window_ms now stores = (limit_answer limit window_ms 0, stores)
check_limit rejected key limit window_ms now stores =
    check_limit_fallback key limit window_ms now stores

-- The headers of the response, and the error that ends the request, if there is one.
pub record LimitHeaders : Type 0 where
  pub ratelimit_limit : ℕ
  pub ratelimit_remaining : ℕ
  pub ratelimit_window : ℕ
  pub retry_after : Option ℕ

pub record RateLimiter : Type 0 where
  pub limit : ℕ
  pub window_ms : ℕ

abbrev pub too_many_requests_error : AppError
too_many_requests_error = record { status = 429; code = "RATE_LIMIT_EXCEEDED" }

unfoldable pub rate_limit_middleware :
    RateLimiter → Exec → ℕ → ℕ → LimitStores → Option AppError × LimitHeaders × LimitStores
unfolding check_limit
rate_limit_middleware limiter exec key now stores =
    let (answer, after) = check_limit exec key limiter.limit limiter.window_ms now stores in
    (
      if answer.allowed then none else some too_many_requests_error,
      record {
        ratelimit_limit = limiter.limit;
        ratelimit_remaining = answer.remaining;
        ratelimit_window = seconds_of limiter.window_ms;
        retry_after = if answer.allowed then none else some answer.retry_after;
      },
      after,
    )

abbrev pub auth_rate_limit : RateLimiter
auth_rate_limit = record { limit = 10; window_ms = 60000 }

abbrev pub api_rate_limit : RateLimiter
api_rate_limit = record { limit = 300; window_ms = 60000 }

abbrev pub api_tenant_rate_limit : RateLimiter
api_tenant_rate_limit = record { limit = 3000; window_ms = 60000 }

abbrev pub register_rate_limit : RateLimiter
register_rate_limit = record { limit = 5; window_ms = 60 * 60000 }

abbrev pub password_reset_rate_limit : RateLimiter
password_reset_rate_limit = record { limit = 5; window_ms = 60 * 60000 }

abbrev pub magic_link_rate_limit : RateLimiter
magic_link_rate_limit = record { limit = 5; window_ms = 60 * 60000 }

abbrev pub verify_email_resend_rate_limit : RateLimiter
verify_email_resend_rate_limit = record { limit = 3; window_ms = 60 * 60000 }

abbrev pub socket_rate_limit : RateLimiter
socket_rate_limit = record { limit = 60; window_ms = 10000 }
