-- ===== src/RateLimit.antt =====
-- src/rate_limit.rs: the fixed-window limiter. Times and durations are nanoseconds; the windows are
-- behind a lock that `hit` holds throughout, so a hit is one step from windows to windows, at the
-- time that was read before the lock was taken.
pub mod Window
pub mod Budget
pub mod Retry
pub mod Enforce
pub mod Client
pub mod Redis
pub mod Script
pub mod Agreement
pub mod Shared
use luxor.Base.{
  ℕ, ◌+◌, ◌-◌, ◌*◌, ◌/◌, ◌%◌, Bool, true, false, not, ◌&&◌, Option, none, some, Text, ltb, leb,
  length, if◌then◌else◌, saturating_add_u32,
}
use luxor.Base.Map.{Map, lookup, insert, retain, contains_key}

abbrev pub nanos_per_second : ℕ
nanos_per_second = 1000000000

pub record RateLimitQuota : Type 0 where
  pub max_requests : ℕ
  pub window_seconds : ℕ

pub record RateLimitDecision : Type 0 where
  pub allowed : Bool
  pub limit : ℕ
  pub remaining : ℕ
  pub retry_after_seconds : ℕ

-- `Duration::from_secs` of the quota's window.
abbrev pub window : RateLimitQuota → ℕ
window q = q.window_seconds * nanos_per_second

-- `as_secs`, and `subsec_nanos` above 0.
unfoldable pub ceil_seconds : ℕ → ℕ
ceil_seconds duration =
    duration / nanos_per_second + (if ltb 0 (duration % nanos_per_second) then 1 else 0)

unfoldable pub decision : ℕ → RateLimitQuota → ℕ → RateLimitDecision
decision count quota reset_in = record {
  allowed = leb count quota.max_requests;
  limit = quota.max_requests;
  remaining = quota.max_requests - count;
  retry_after_seconds = ceil_seconds reset_in;
}

abbrev pub max_tracked_windows : ℕ
max_tracked_windows = 100000

pub record MemoryWindow : Type 0 where
  pub count : ℕ
  pub resets_at : ℕ

-- The match on `windows.entry(key)`: the window after the hit.
unfoldable pub entry_after : ℕ → ℕ → Option MemoryWindow → MemoryWindow
entry_after now resets_at none = record { count = 1; resets_at = resets_at }
entry_after now resets_at (some w) =
    if ltb now w.resets_at
    then record w { count = saturating_add_u32 w.count 1 }
    else record { count = 1; resets_at = resets_at }

unfoldable pub track :
    Text → RateLimitQuota → ℕ → Map MemoryWindow → RateLimitDecision × Map MemoryWindow
track key quota now windows =
    let w = entry_after now (now + window quota) (lookup key windows) in
    (decision w.count quota (w.resets_at - now), insert key w windows)

abbrev pub is_live : ℕ → MemoryWindow → Bool
is_live now w = ltb now w.resets_at

-- `MemoryRateLimiter::hit`, over any bound on the tracked windows.
unfoldable pub hit_within :
    ℕ → Text → RateLimitQuota → ℕ → Map MemoryWindow → RateLimitDecision × Map MemoryWindow
hit_within capacity key quota now windows =
    let swept = retain (is_live now) windows in
    if leb capacity (length windows) && not (contains_key key windows)
    then if leb capacity (length swept)
      then (decision 1 quota (window quota), swept)
      else track key quota now swept
    else track key quota now windows

unfoldable pub hit :
    Text → RateLimitQuota → ℕ → Map MemoryWindow → RateLimitDecision × Map MemoryWindow
hit = hit_within max_tracked_windows
