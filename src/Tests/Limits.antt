-- ===== src/Tests/Limits.antt =====
-- Inputs for the rate limiter: one client that has used up a window of two, and another.
use luxor.Base.{ℕ, ◌≡◌, refl, true, false, some, List, [], ◌∷◌, Text, codes, min, length, arith}
use luxor.Base.Map.{Map, lookup, insert, retain, contains_key, IsDistinct}
use luxor.Http.{visible, Request, Response, empty}
use luxor.RateLimit.{
  RateLimitQuota, MemoryWindow, window, track, entry_after, decision, hit_within, ceil_seconds,
}
use luxor.RateLimit.Budget.{admitted, attempts, window-admitted}
use luxor.RateLimit.Retry.{retry_admitted}
use luxor.RateLimit.Enforce.{x_forwarded_for, RateLimitPolicy}

limiter : Unit {0}
unfolding hit_within track entry_after decision lookup insert retain contains_key ceil_seconds
limiter = tt

abbrev alice : Text
alice = codes "api:203.0.113.1"

abbrev bob : Text
bob = codes "api:203.0.113.2"

abbrev two_a_minute : RateLimitQuota
two_a_minute = record { max_requests = 2; window_seconds = 60 }

-- Alice's window, used up, ends at the 60th second.
abbrev used_up : Map MemoryWindow
used_up = (alice, record { count = 2; resets_at = 60000000000 }) ∷ []

used_up-IsDistinct : IsDistinct used_up
unfolding lookup
used_up-IsDistinct = (refl, tt)

hit_tests :
    ((hit_within 2 alice two_a_minute 3400000000 used_up).0.allowed ≡ false)
    × ((hit_within 2 alice two_a_minute 3400000000 used_up).0.retry_after_seconds ≡ 57)
    × ((hit_within 2 bob two_a_minute 3400000000 used_up).0.remaining ≡ 1)
    × ((hit_within 1 bob two_a_minute 3400000000 used_up).1 ≡ used_up)
    × (length (hit_within 1 bob two_a_minute 60000000000 used_up).1 ≡ 1)
unfolding limiter
hit_tests = (refl, refl, refl, refl, refl)

abbrev history : List (Text × ℕ)
history = (alice, 7) ∷ (bob, 8) ∷ (alice, 9) ∷ []

window-admitted_example :
    admitted 10 (λ k. two_a_minute) alice [] ((alice, 5) ∷ history)
    ≡ min (attempts 10 (λ k. two_a_minute) alice ((alice, 5) ∷ history)) 2
unfolding lookup
window-admitted_example =
    window-admitted 10 (λ k. two_a_minute) alice [] 5 history (omega arith) (omega arith) tt
      (omega arith) refl (omega arith)

retry_admitted_example :
    (hit_within 2 alice two_a_minute 61000000000
      (hit_within 2 alice two_a_minute 3400000000 used_up).1).0
    ≡ decision 1 two_a_minute (window two_a_minute)
unfolding limiter
retry_admitted_example =
    retry_admitted 2 alice two_a_minute used_up 3400000000 61000000000 (omega arith)
      used_up-IsDistinct refl (omega arith)

abbrev policy : RateLimitPolicy
policy = record {
  name = codes "api";
  quota = two_a_minute;
  client_ip_source = x_forwarded_for;
  enabled = true;
}

abbrev spoofed_request : Request
spoofed_request = record {
  method = codes "GET";
  path = codes "/api/health";
  path_and_query = some (codes "/api/health");
  headers = (codes "x-forwarded-for", visible (codes "198.51.100.1, 203.0.113.1")) ∷ [];
}

abbrev next : Request → Map MemoryWindow → Response × Map MemoryWindow
next r m = (record { status = 200; headers = []; body = empty }, m)
