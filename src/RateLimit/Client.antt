-- ===== src/RateLimit/Client.antt =====
-- src/rate_limit.rs: the middleware over the limiter in memory, and the keys it charges.
use luxor.Base.{
  ℕ, ◌-◌, ◌≤◌, ◌<◌, ◌≡◌, refl, true, false, Option, some, List, [], ◌∷◌, ◌++◌, Text, codes,
  to_decimal, trim, split_last, contains_char, leb, ==_refl, arith, saturating_add_u32, text_eq,
}
use luxor.Base.Map.{Map, lookup}
use luxor.Http.{HeaderValue, visible, Request, Response, get, get_all, get-insert}
use luxor.Error.{into_response, status_code}
use luxor.RateLimit.{RateLimitDecision, MemoryWindow, decision, ceil_seconds}
use luxor.RateLimit.Window.{hit_within_live}
use luxor.RateLimit.Enforce.{
  x_forwarded_for, RateLimitPolicy, last, client_ip, policy_key, enforce, limited_response,
  memory_limiter,
}

limited_response_lem :
    (d : RateLimitDecision)
    → ((limited_response d).status ≡ 429)
      × (get (codes "retry-after") (limited_response d).headers
          ≡ some (visible (to_decimal d.retry_after_seconds)))
unfolding limited_response into_response status_code text_eq
limited_response_lem d = (refl, simp get-insert)

module _ {Ip : Type 0} (parse_ip : Text → Option Ip) (ip_text : Ip → Text) (capacity now : ℕ)
    (next : Request → Map MemoryWindow → Response × Map MemoryWindow) where
  abbrev metered :
      RateLimitPolicy → Option Ip → Request → Map MemoryWindow → Response × Map MemoryWindow
  metered = enforce parse_ip ip_text (memory_limiter capacity now) next

  abbrev key_of : RateLimitPolicy → Option Ip → Request → Text
  key_of = policy_key parse_ip ip_text (memory_limiter capacity now) next

  -- With the in-memory limiter and a policy that is enabled with a quota below u32::MAX, a client
  -- whose live window has counted the quota is answered with status 429 and the seconds left of its
  -- window in Retry-After.
  pub enforce_exhausted :
      (policy : RateLimitPolicy) (peer : Option Ip) (request : Request) (m : Map MemoryWindow)
      (w : MemoryWindow)
      → policy.enabled ≡ true
      → lookup (key_of policy peer request) m ≡ some w
      → now < w.resets_at
      → policy.quota.max_requests ≤ w.count
      → policy.quota.max_requests < 4294967295
      → let r = metered policy peer request m in
        (r.0.status ≡ 429)
        × (get (codes "retry-after") r.0.headers
            ≡ some (visible (to_decimal (ceil_seconds (w.resets_at - now)))))
  unfolding enforce decision
  enforce_exhausted policy peer request m w on held alive full small =
      let over : leb (saturating_add_u32 w.count 1) policy.quota.max_requests ≡ false =
        ground arith in
      rw
        (
          on,
          hit_within_live capacity (key_of policy peer request) policy.quota now m w held alive,
          over,
        )
        (limited_response_lem _)

contains_char-middle : (d : ℕ) (a b : Text) → contains_char d (a ++ d ∷ b) ≡ true
contains_char-middle d [] b = rw (==_refl d)
contains_char-middle d (c ∷ a) b = rw (contains_char-middle d a b) (ground arith)

split_last_of_free : (d : ℕ) (b : Text) → contains_char d b ≡ false → split_last d b ≡ b
unfolding split_last
split_last_of_free d [] h = refl
split_last_of_free d (c ∷ b) h = ground (arith, split_last_of_free d b)

split_last-prefix : (d : ℕ) (a b : Text) → split_last d (a ++ d ∷ b) ≡ split_last d b
unfolding split_last
split_last-prefix d [] b = ground (arith, split_last_of_free d b)
split_last-prefix d (c ∷ a) b = rw (contains_char-middle d a b) (split_last-prefix d a b)

last-append : (vs : List HeaderValue) (v : HeaderValue) → last (vs ++ v ∷ []) ≡ some v
unfolding last
last-append [] v = refl
last-append (w ∷ []) v = refl
last-append (w ∷ x ∷ vs) v = last-append (x ∷ vs) v

module _ {Ip : Type 0} (parse_ip : Text → Option Ip) where
  -- With X-Forwarded-For as the source, if the last header has a comma, the client's address is
  -- parsed from the last entry of what follows it; earlier headers and earlier entries make no
  -- difference.
  pub client_ip_spoofed :
      (peer : Option Ip) (request : Request) (vs : List HeaderValue) (spoofed entry : Text)
      → get_all (codes "x-forwarded-for") request.headers
        ≡ vs ++ visible (spoofed ++ b',' ∷ entry) ∷ []
      → client_ip parse_ip x_forwarded_for peer request ≡ parse_ip (trim (split_last b',' entry))
  unfolding client_ip
  client_ip_spoofed peer request vs spoofed entry e =
      rw (e, last-append vs, split_last-prefix b',' spoofed entry)
