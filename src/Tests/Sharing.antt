-- ===== src/Tests/Sharing.antt =====
-- Inputs for the limiter in Redis: a server that keeps its counters in a map.
use luxor.Base.{
  ◌⊎◌, ◌==◌, leb, true, if◌then◌else◌, ℕ, suc, ◌+◌, ◌-◌, ◌≤◌, ◌<◌, ◌≡◌, ◌≢◌, refl, ap, ◌∙◌, false,
  inl, inr, Option, none, some, List, [], ◌∷◌, Text, codes, text_eq, text_eq→eq, Bool-cases, arith,
}
use luxor.Base.Map.{Map, lookup, insert, lookup-insert_self, lookup-insert_ne}
use luxor.RateLimit.{RateLimitQuota}
use luxor.RateLimit.Budget.{Hit}
use luxor.RateLimit.Redis.{RedisServer, RedisRateLimiter}
use luxor.RateLimit.Script.{Entry, until, ends, IsRedis}
use luxor.RateLimit.Agreement.{AreTimely}
use luxor.RateLimit.Shared.{decisions_memory, decisions_redis, decisions_redis-memory}

abbrev Counters : Type 0
Counters = Map (ℕ × Option ℕ)

-- A counter is there up to the millisecond in which it expires, that one included.
abbrev alive : ℕ → Entry → Entry
alive now none = none
alive now (some (n, none)) = some (n, none)
alive now (some (n, some end)) = if leb now end then some (n, some end) else none

abbrev entry : Text → ℕ → Counters → Entry
entry k now r = alive now (lookup k r)

abbrev counted : Entry → ℕ × Option ℕ
counted none = (1, none)
counted (some (n, end)) = (suc n, end)

abbrev expiring : ℕ → Entry → ℕ × Option ℕ
expiring end none = (0, none)
expiring end (some (n, old)) = (n, some end)

abbrev left : ℕ → Entry → Option ℕ
left now (some (n, some end)) = some (end - now)
left now _ = none

abbrev expire : Text → ℕ → ℕ → Entry → Counters → Counters
expire k end now none r = r
expire k end now (some (n, old)) r = insert k (n, some end) r

abbrev server : RedisServer Counters
server = record {
  incr = λ k now r. ((counted (entry k now r)).0, insert k (counted (entry k now r)) r);
  pexpire = λ k millis now r. expire k (now + millis) now (entry k now r) r;
  pttl = λ k now r. left now (entry k now r);
}

different : (k j : Text) → k ≢ j → text_eq k j ≡ false
different k j ne = elim (Bool-cases (text_eq k j)) [
  | inl same ↦ absurd (ne (text_eq→eq k j same))
  | inr other ↦ other
]

expire_other :
    (k j : Text) (end now : ℕ) (e : Entry) (r : Counters)
    → k ≢ j
    → entry j now (expire k end now e r) ≡ entry j now r
expire_other k j end now none r ne = refl
expire_other k j end now (some (n, old)) r ne =
    ap (alive now) (lookup-insert_ne k j (n, some end) r (different k j ne))

server-IsRedis : IsRedis server entry
server-IsRedis = record {
  incr_new = λ k now r e. rw e (refl, ap (alive now) (lookup-insert_self k (1, none) r));
  incr_old = λ k now n end r e.
      rw e (
        refl,
        ap (alive now) (lookup-insert_self k (suc n, end) r) ∙ kept now n end (lookup k r) e,
      );
  pexpire_set = λ k now millis n end r pos holds e.
      rw e
        (ap (alive now) (lookup-insert_self k (n, some (now + millis)) r) ∙ lives now millis n pos);
  pttl_left = λ k now n end r e. rw e refl;
  incr_other = λ k j now r ne.
      ap (alive now) (lookup-insert_ne k j (counted (entry k now r)) r (different k j ne));
  pexpire_other = λ k j now millis r ne. expire_other k j (now + millis) now (entry k now r) r ne;
  passes = λ k now later r h. passed now later (lookup k r) h;
}
  where
    kept :
        (now n : ℕ) (end : Option ℕ) (e : Entry)
        → alive now e ≡ some (n, end)
        → alive now (some (suc n, end)) ≡ some (suc n, end)
    kept now n none e h = refl
    kept now n (some end) none h = cc
    kept now n (some end) (some (m, none)) h = cc
    kept now n (some end) (some (m, some last)) h = ground arith

    lives :
        (now millis n : ℕ)
        → 0 < millis
        → alive now (some (n, some (now + millis))) ≡ some (n, some (now + millis))
    lives now millis n pos = ground arith

    passed :
        (now later : ℕ) (e : Entry)
        → now ≤ later
        → (alive later e ≡ until later (alive now e))
          ⊎ ((ends (alive now e) later ≡ true) × (alive later e ≡ alive now e))
    passed now later none h = inl refl
    passed now later (some (n, none)) h = inl refl
    passed now later (some (n, some end)) h = elim (Bool-cases (later == end)) [
      | inl last ↦
          let on : leb now end ≡ true = ground arith in
          let still : leb later end ≡ true = ground arith in rw (on, still) (inr (last, refl))
      | inr other ↦ inl (ground arith)
    ]

abbrev limiter : RedisRateLimiter
limiter = record { namespace = codes "luxor:rate-limit" }

abbrev one_a_minute : RateLimitQuota
one_a_minute = record { max_requests = 1; window_seconds = 60 }

abbrev hits : List Hit
hits = (codes "alice", 5) ∷ (codes "bob", 6) ∷ (codes "alice", 60004) ∷ (codes "alice", 60006) ∷ []

timely : AreTimely (λ k. one_a_minute) 0 hits
unfolding text_eq
timely = (
  omega arith,
  omega arith,
  (refl, (refl, (refl, tt))),
  (
    omega arith,
    omega arith,
    (refl, (refl, tt)),
    (omega arith, omega arith, (refl, tt), (omega arith, omega arith, tt, tt)),
  ),
)

decisions_redis-memory_example :
    decisions_redis (λ k. one_a_minute) server limiter [] hits
    ≡ decisions_memory (λ k. one_a_minute) 9 [] hits
unfolding lookup
decisions_redis-memory_example =
    decisions_redis-memory server entry server-IsRedis limiter 9 (λ k. one_a_minute)
      (λ k. omega arith) 0 hits [] timely (omega arith) (λ k. refl)
