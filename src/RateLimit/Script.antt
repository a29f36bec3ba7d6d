-- ===== src/RateLimit/Script.antt =====
-- src/rate_limit.rs: the script on a server that keeps to Redis's documentation.
use luxor.Base.{
  ℕ, suc, ◌+◌, ◌-◌, ◌^◌, ◌⊎◌, ◌≤◌, ◌<◌, ◌≡◌, ◌≢◌, refl, ◌∙◌, inl, inr, true, false, Bool, Option,
  none, some, [], ◌∷◌, ◌++◌, Text, codes, ltb, text_eq, eq→text_eq, Option-cases, if◌then◌else◌,
  ◌==◌, arith,
}
use luxor.RateLimit.Redis.{RedisServer, RedisRateLimiter, redis_key, fixed_window}

-- A counter, and when it expires, if it does.
abbrev pub Entry : Type 0
Entry = Option (ℕ × Option ℕ)

abbrev pub until : ℕ → Entry → Entry
until later none = none
until later (some (n, none)) = some (n, none)
until later (some (n, some end)) = if ltb later end then some (n, some end) else none

-- Whether the counter expires in this very millisecond.
abbrev pub ends : Entry → ℕ → Bool
ends (some (n, some end)) t = t == end
ends _ t = false

-- `i64::MAX`, the last millisecond that Redis can have a counter expire in.
abbrev pub i64_max : ℕ
i64_max = 2 ^ 63 - 1

-- What Redis documents of the three commands, and of time: INCR makes a counter of a missing key,
-- without an expiry, and keeps that of another; PEXPIRE sets it, where the time is one that it can
-- hold; PTTL tells what is left. A counter is there before its time, and gone after it; in the very
-- millisecond it may be either, since a key expires up to a millisecond late.
pub record IsRedis {R : Type 0} (server : RedisServer R) (entry : Text → ℕ → R → Entry)
    : Type 0 where
  pub incr_new :
      (k : Text) (now : ℕ) (r : R)
      → entry k now r ≡ none
      → ((server.incr k now r).0 ≡ 1) × (entry k now (server.incr k now r).1 ≡ some (1, none))
  pub incr_old :
      (k : Text) (now n : ℕ) (end : Option ℕ) (r : R)
      → entry k now r ≡ some (n, end)
      → ((server.incr k now r).0 ≡ suc n)
        × (entry k now (server.incr k now r).1 ≡ some (suc n, end))
  pub pexpire_set :
      (k : Text) (now millis n : ℕ) (end : Option ℕ) (r : R)
      → 0 < millis
      → now + millis ≤ i64_max
      → entry k now r ≡ some (n, end)
      → entry k now (server.pexpire k millis now r) ≡ some (n, some (now + millis))
  pub pttl_left :
      (k : Text) (now n end : ℕ) (r : R)
      → entry k now r ≡ some (n, some end)
      → server.pttl k now r ≡ some (end - now)
  pub incr_other :
      (k j : Text) (now : ℕ) (r : R) → k ≢ j → entry j now (server.incr k now r).1 ≡ entry j now r
  pub pexpire_other :
      (k j : Text) (now millis : ℕ) (r : R)
      → k ≢ j
      → entry j now (server.pexpire k millis now r) ≡ entry j now r
  pub passes :
      (k : Text) (now later : ℕ) (r : R)
      → now ≤ later
      → (entry k later r ≡ until later (entry k now r))
        ⊎ ((ends (entry k now r) later ≡ true) × (entry k later r ≡ entry k now r))

append_injective : (s k j : Text) → s ++ k ≡ s ++ j → k ≡ j
append_injective [] k j h = h
append_injective (c ∷ s) k j h = append_injective s k j (cc)

pub key_ne :
    (limiter : RedisRateLimiter) (k j : Text)
    → text_eq k j ≡ false
    → redis_key limiter k ≢ redis_key limiter j
unfolding redis_key
key_ne limiter k j other same =
    let equal =
      eq→text_eq k j
        (append_injective (codes ":") k j (append_injective limiter.namespace _ _ same)) in
    cc

module _ {R : Type 0} (server : RedisServer R) (entry : Text → ℕ → R → Entry)
    (redis : IsRedis server entry) where
  -- The script on a key without a counter, and on one with a window.
  pub script_new :
      (k : Text) (millis now : ℕ) (r : R)
      → 0 < millis
      → now + millis ≤ i64_max
      → entry k now r ≡ none
      → ((fixed_window server k millis now r).0 ≡ (1, millis))
        × (entry k now (fixed_window server k millis now r).1 ≡ some (1, some (now + millis)))
  unfolding fixed_window
  script_new k millis now r pos holds e =
      let (one, counted) = redis.incr_new k now r e in
      let armed = redis.pexpire_set k now millis 1 none (server.incr k now r).1 pos holds counted in
      let left = redis.pttl_left k now 1 (now + millis) _ armed in
      let whole : now + millis - now ≡ millis = omega arith in rw (one, left, whole) (refl, armed)

  pub script_old :
      (k : Text) (millis now n end : ℕ) (r : R)
      → 1 ≤ n
      → entry k now r ≡ some (n, some end)
      → ((fixed_window server k millis now r).0 ≡ (suc n, end - now))
        × (entry k now (fixed_window server k millis now r).1 ≡ some (suc n, some end))
  unfolding fixed_window
  script_old k millis now n end r pos e =
      let (more, counted) = redis.incr_old k now n (some end) r e in
      let later : (suc n == 1) ≡ false = ground arith in
      let left = redis.pttl_left k now (suc n) end _ counted in
      rw (more, later, left) (refl, counted)

  armed_other :
      (k j : Text) (millis now : ℕ) (r : R) (first : Bool)
      → k ≢ j
      → entry j now (if first then server.pexpire k millis now r else r) ≡ entry j now r
  armed_other k j millis now r true ne = redis.pexpire_other k j now millis r ne
  armed_other k j millis now r false ne = refl

  pub script_other :
      (k j : Text) (millis now : ℕ) (r : R)
      → k ≢ j
      → entry j now (fixed_window server k millis now r).1 ≡ entry j now r
  unfolding fixed_window
  script_other k j millis now r ne =
      let (count, counted) = server.incr k now r in
      let armed = if count == 1 then server.pexpire k millis now counted else counted in
      let kept : entry j now armed ≡ entry j now r =
        armed_other k j millis now counted (count == 1) ne ∙ redis.incr_other k j now r ne in
      elim (Option-cases (server.pttl k now armed)) [
        | inl persistent ↦ rw persistent (redis.pexpire_other k j now millis armed ne ∙ kept)
        | inr (ttl, left) ↦ rw left kept
      ]
