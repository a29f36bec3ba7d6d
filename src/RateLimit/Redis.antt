-- ===== src/RateLimit/Redis.antt =====
-- src/rate_limit.rs: the limiter whose windows are in Redis. The server is a parameter: what its
-- commands answer at a time in milliseconds. The script is one step, at one time.
use luxor.Base.{
  ℕ, ◌*◌, Option, none, some, ◌++◌, Text, codes, leb, ◌==◌, if◌then◌else◌, Result, ok, err, u32_max,
}
use luxor.Error.{AppError, cache}
use luxor.RateLimit.{RateLimitQuota, RateLimitDecision, decision}

-- INCR, PEXPIRE and PTTL; a negative answer of PTTL is `none`.
pub record RedisServer (R : Type 0) : Type 0 where
  pub incr : Text → ℕ → R → ℕ × R
  pub pexpire : Text → ℕ → ℕ → R → R
  pub pttl : Text → ℕ → R → Option ℕ

pub record RedisRateLimiter : Type 0 where
  pub namespace : Text

-- What becomes of one invocation: it is answered, or it fails before or after the script has run.
pub data Invocation : Type 0 where
  answered : Invocation
  refused lost : Text → Invocation

abbrev pub nanos_per_milli : ℕ
nanos_per_milli = 1000000

-- `u32::try_from(count).unwrap_or(u32::MAX)`.
abbrev pub clamp_u32 : ℕ → ℕ
clamp_u32 n = if leb n u32_max then n else u32_max

unfoldable pub redis_key : RedisRateLimiter → Text → Text
redis_key limiter key = limiter.namespace ++ (codes ":" ++ key)

module _ {R : Type 0} (server : RedisServer R) where
  abbrev pub with_ttl : Text → ℕ → ℕ → ℕ → R → Option ℕ → (ℕ × ℕ) × R
  with_ttl key window_millis now count r (some ttl) = ((count, ttl), r)
  with_ttl key window_millis now count r none =
      ((count, window_millis), server.pexpire key window_millis now r)

  -- `FIXED_WINDOW_SCRIPT`: the count, what is left of the window, and the server after it.
  unfoldable pub fixed_window : Text → ℕ → ℕ → R → (ℕ × ℕ) × R
  fixed_window key window_millis now r =
      let (count, counted) = server.incr key now r in
      let armed = if count == 1 then server.pexpire key window_millis now counted else counted in
      with_ttl key window_millis now count armed (server.pttl key now armed)

  abbrev decided : RateLimitQuota → (ℕ × ℕ) × R → Result AppError RateLimitDecision × R
  decided quota ((count, ttl_millis), r) =
      (ok (decision (clamp_u32 count) quota (ttl_millis * nanos_per_milli)), r)

  abbrev failed : Text → (ℕ × ℕ) × R → Result AppError RateLimitDecision × R
  failed e (reply, r) = (err (cache e), r)

  unfoldable pub hit_redis :
      RedisRateLimiter
      → Text
      → RateLimitQuota
      → ℕ
      → Invocation
      → R
      → Result AppError RateLimitDecision × R
  unfolding fixed_window redis_key
  hit_redis limiter key quota now answered r =
      decided quota (fixed_window (redis_key limiter key) (quota.window_seconds * 1000) now r)
  hit_redis limiter key quota now (refused e) r = (err (cache e), r)
  hit_redis limiter key quota now (lost e) r =
      failed e (fixed_window (redis_key limiter key) (quota.window_seconds * 1000) now r)
