-- ===== src/RateLimit/Enforce.antt =====
-- src/rate_limit.rs: the middleware and the client's address. The limiter is the interface that
-- the in-memory one and the Redis one implement; parsing and printing an address are the standard
-- library's. What follows the middleware may hit the same limiter, so it passes its state on.
use luxor.Base.{
  ℕ, Bool, not, Option, none, some, List, [], ◌∷◌, ◌++◌, Text, codes, to_decimal, trim, split_last,
  if◌then◌else◌, Result, ok, err,
}
use luxor.Base.Map.{Map}
use luxor.Http.{HeaderValue, visible, Request, Response, get_all, insert, readable}
use luxor.Error.{AppError, rate_limited, into_response}
use luxor.RateLimit.{RateLimitQuota, RateLimitDecision, MemoryWindow, hit_within}

pub data ClientIpSource : Type 0 where
  socket x_forwarded_for : ClientIpSource

pub record RateLimitPolicy : Type 0 where
  pub name : Text
  pub quota : RateLimitQuota
  pub client_ip_source : ClientIpSource
  pub enabled : Bool

-- `next_back` of an iterator.
unfoldable pub last : List HeaderValue → Option HeaderValue
last [] = none
last (v ∷ []) = some v
last (v ∷ w ∷ vs) = last (w ∷ vs)

unfoldable pub limited_response : RateLimitDecision → Response
limited_response d =
    let r = into_response (rate_limited d.retry_after_seconds) in
    record r {
      headers = insert (codes "ratelimit-reset") (visible (to_decimal d.retry_after_seconds)) (
          insert (codes "ratelimit-remaining") (visible (to_decimal d.remaining))
            (insert (codes "ratelimit-limit") (visible (to_decimal d.limit)) r.headers));
    }

module _ {Ip : Type 0} (parse_ip : Text → Option Ip) where
  abbrev parse_last_entry : Option Text → Option Ip
  parse_last_entry none = none
  parse_last_entry (some value) = parse_ip (trim (split_last b',' value))

  -- `peer` is the address of the connection, where it is known.
  unfoldable pub client_ip : ClientIpSource → Option Ip → Request → Option Ip
  unfolding last trim split_last
  client_ip socket peer request = peer
  client_ip x_forwarded_for peer request =
      parse_last_entry (readable (last (get_all (codes "x-forwarded-for") request.headers)))

module _ {Ip : Type 0} {S : Type 0} (parse_ip : Text → Option Ip) (ip_text : Ip → Text)
    (limiter : Text → RateLimitQuota → S → Result AppError RateLimitDecision × S)
    (next : Request → S → Response × S) where
  abbrev client_name : Option Ip → Text
  client_name none = codes "unknown"
  client_name (some ip) = ip_text ip

  unfoldable pub policy_key : RateLimitPolicy → Option Ip → Request → Text
  unfolding client_ip
  policy_key policy peer request =
      policy.name
      ++ codes ":"
      ++ client_name (client_ip parse_ip policy.client_ip_source peer request)

  abbrev answer : Request → Result AppError RateLimitDecision × S → Response × S
  answer request (ok d, s) = if d.allowed then next request s else (limited_response d, s)
  answer request (err e, s) = next request s

  unfoldable pub enforce : RateLimitPolicy → Option Ip → Request → S → Response × S
  unfolding policy_key
  enforce policy peer request s =
      if not policy.enabled
      then next request s
      else answer request (limiter (policy_key policy peer request) policy.quota s)

-- `MemoryRateLimiter` behind that interface, at a time.
abbrev pub memory_limiter :
    ℕ
    → ℕ
    → Text
    → RateLimitQuota
    → Map MemoryWindow
    → Result AppError RateLimitDecision × Map MemoryWindow
memory_limiter capacity now key quota windows =
    let r = hit_within capacity key quota now windows in (ok r.0, r.1)
