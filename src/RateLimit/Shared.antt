-- ===== src/RateLimit/Shared.antt =====
-- src/rate_limit.rs: the limiter in Redis next to the one in memory.
use luxor.Base.{
  ℕ, suc, ◌+◌, ◌-◌, ◌*◌, ◌≤◌, ◌<◌, All, All-map, ◌&&◌, ◌==◌, ◌≡◌, refl, sym, ap, ap₂, inl, inr,
  true, false, Option, none, some, List, [], ◌∷◌, length, Text, ltb, text_eq, text_eq→eq,
  Bool-cases, Result, ok, saturating_add_u32, arith,
}
use luxor.Base.Map.{
  Map, lookup, insert, keep, lookup-insert_self, lookup-insert_ne, length-insert_le,
}
use luxor.Error.{AppError}
use luxor.RateLimit.{
  RateLimitQuota, RateLimitDecision, MemoryWindow, window, decision, is_live, hit_within,
}
use luxor.RateLimit.Window.{keep-keep, live, live_some, hit_within_live, hit_within_fresh}
use luxor.RateLimit.Budget.{Hit}
use luxor.RateLimit.Script.{
  Entry, ends, i64_max, IsRedis, key_ne, script_new, script_old, script_other,
}
use luxor.RateLimit.Redis.{
  RedisServer, RedisRateLimiter, answered, nanos_per_milli, clamp_u32, redis_key, fixed_window,
  hit_redis,
}
use luxor.RateLimit.Agreement.{AreTimely, Agrees, Agrees-until, Agrees-kept, ends-until}

-- What each limiter answers to the hits one after the other, at times in milliseconds.
module _ (quota_of : Text → RateLimitQuota) where
  pub decisions_memory : ℕ → Map MemoryWindow → List Hit → List (Result AppError RateLimitDecision)
  decisions_memory capacity m [] = []
  decisions_memory capacity m ((key, now) ∷ hits) =
      let (d, next) = hit_within capacity key (quota_of key) (now * nanos_per_milli) m in
      ok d ∷ decisions_memory capacity next hits

  pub decisions_redis :
      {R : Type 0}
      → RedisServer R
      → RedisRateLimiter
      → R
      → List Hit
      → List (Result AppError RateLimitDecision)
  decisions_redis server limiter r [] = []
  decisions_redis server limiter r ((key, now) ∷ hits) =
      let (answer, next) = hit_redis server limiter key (quota_of key) now answered r in
      answer ∷ decisions_redis server limiter next hits

module _ {R : Type 0} (server : RedisServer R) (entry : Text → ℕ → R → Entry)
    (redis : IsRedis server entry) (limiter : RedisRateLimiter) where
  module _ (capacity : ℕ) (quota_of : Text → RateLimitQuota) where
    -- The two limiters show the same windows at a time in milliseconds.
    Alike : ℕ → Map MemoryWindow → R → Type 0
    Alike now m r =
        (k : Text)
        → Agrees now (live (now * nanos_per_milli) k m) (entry (redis_key limiter k) now r)

    Alike-later :
        (now later : ℕ) (m : Map MemoryWindow) (r : R)
        → now ≤ later
        → Alike now m r
        → Alike later m r
    unfolding Alike
    Alike-later now later m r h a k =
        let shown = live (now * nanos_per_milli) k m in
        let again : keep (is_live (later * nanos_per_milli)) shown
            ≡ live (later * nanos_per_milli) k m =
          keep-keep (now * nanos_per_milli) (later * nanos_per_milli) (lookup k m) (omega arith) in
        elim (redis.passes (redis_key limiter k) now later r h) [
          | inl past ↦ rw past (rw again at (Agrees-until now later shown _ h (a k)))
          | inr (last, kept) ↦ rw kept (rw again at (Agrees-kept now later shown _ last (a k)))
        ]

    -- No hit comes in the last millisecond of a counter of its key.
    IsClear : ℕ → R → List Hit → Type 0
    IsClear now r hits =
        All (λ hit. ends (entry (redis_key limiter hit.0) now r) hit.1 ≡ false) hits

    IsClear-fresh :
        (now : ℕ) (r : R) (hits : List Hit)
        → ((k : Text) → entry (redis_key limiter k) now r ≡ none)
        → IsClear now r hits
    unfolding IsClear
    IsClear-fresh now r [] fresh = tt
    IsClear-fresh now r ((k, t) ∷ hits) fresh = (rw (fresh k) refl, IsClear-fresh now r hits fresh)

    IsClear-later :
        (now later : ℕ) (r : R) (hits : List Hit)
        → now ≤ later
        → IsClear now r hits
        → IsClear later r hits
    unfolding IsClear
    IsClear-later now later r hits h clear =
        All-map _ _ (λ hit. clear_of hit.1 (redis_key limiter hit.0)) hits clear
      where
        clear_of :
            (t : ℕ) (k : Text) → ends (entry k now r) t ≡ false → ends (entry k later r) t ≡ false
        clear_of t k c = elim (redis.passes k now later r h) [
          | inl past ↦ rw past (ends-until later t _ c)
          | inr (last, kept) ↦ rw kept c
        ]

    -- A later hit, when one is made, that comes in no last millisecond, the new window's included.
    IsSpared : Text → ℕ → Text → ℕ → R → Type 0
    IsSpared key now k t r =
        ((text_eq key k && t == now + (quota_of key).window_seconds * 1000) ≡ false)
        × (ends (entry (redis_key limiter k) now r) t ≡ false)

    -- What one hit gives, and what it leaves.
    IsStep : Text → ℕ → Map MemoryWindow → R → Type 0
    IsStep key now m r =
        let (d, m') = hit_within capacity key (quota_of key) (now * nanos_per_milli) m in
        let (answer, r') = hit_redis server limiter key (quota_of key) now answered r in
        (answer ≡ ok d)
        × (length m' ≤ suc (length m))
        × Alike now m' r'
        × ((k : Text) (t : ℕ) → IsSpared key now k t r → IsSpared key now k t r')

    Alike-insert :
        (key : Text) (millis now : ℕ) (m : Map MemoryWindow) (r : R) (w : MemoryWindow)
        → Agrees now (keep (is_live (now * nanos_per_milli)) (some w)) (
            entry
              (redis_key limiter key)
              now
              (fixed_window server (redis_key limiter key) millis now r).1)
        → Alike now m r
        → Alike now (insert key w m) (fixed_window server (redis_key limiter key) millis now r).1
    unfolding Alike
    Alike-insert key millis now m r w own a k = elim (Bool-cases (text_eq key k)) [
      | inl same ↦
          let is : key ≡ k = text_eq→eq key k same in
          rw (← is) (rw (lookup-insert_self key w m) own)
      | inr other ↦
          rw
            (
              lookup-insert_ne key k w m other,
              script_other server entry redis (redis_key limiter key) (redis_key limiter k) millis
                  now r (key_ne limiter key k other),
            )
            (a k)
    ]

    spared :
        (key : Text) (millis now : ℕ) (k : Text) (t : ℕ) (r : R)
        → ((quota_of key).window_seconds * 1000 ≡ millis)
        → (ends (entry (redis_key limiter key) now r) t ≡ false
            → (t == now + millis) ≡ false
            → ends
                (entry
                  (redis_key limiter key)
                  now
                  (fixed_window server (redis_key limiter key) millis now r).1)
                t
              ≡ false)
        → IsSpared key now k t r
        → IsSpared key now k t (fixed_window server (redis_key limiter key) millis now r).1
    unfolding IsSpared
    spared key millis now k t r span own (apart, clear) = elim (Bool-cases (text_eq key k)) [
      | inl same ↦
          let is : key ≡ k = text_eq→eq key k same in
          (apart, rw (← is) (own (rw (← is) at clear) (ground (arith, apart, same, span))))
      | inr other ↦ (
        apart,
        rw
            (script_other server entry redis (redis_key limiter key) (redis_key limiter k) millis
              now r (key_ne limiter key k other))
            clear,
      )
    ]

    step_of :
        (key : Text) (now : ℕ) (m : Map MemoryWindow) (r : R) (o : Option MemoryWindow) (e : Entry)
        → 1 ≤ (quota_of key).window_seconds
        → now + (quota_of key).window_seconds * 1000 ≤ i64_max
        → length m < capacity
        → live (now * nanos_per_milli) key m ≡ o
        → entry (redis_key limiter key) now r ≡ e
        → ends e now ≡ false
        → Agrees now o e
        → Alike now m r
        → IsStep key now m r
    unfolding IsStep hit_redis
    step_of key now m r none none pos holds room shown counter clear agree a =
        let q = quota_of key in
        let millis = q.window_seconds * 1000 in
        let (reply, kept) =
          script_new server entry redis (redis_key limiter key) millis now r (omega arith) holds
            counter in
        let w : MemoryWindow = record { count = 1; resets_at = now * nanos_per_milli + window q } in
        let span : millis * nanos_per_milli ≡ window q = omega arith in
        let lives : ltb (now * nanos_per_milli) (now * nanos_per_milli + window q) ≡ true =
          ground arith in
        rw (hit_within_fresh capacity key q (now * nanos_per_milli) m room shown, reply, span)
          (
            refl,
            length-insert_le key w m,
            Alike-insert key millis now m r w (rw (lives, kept) (omega arith, refl, omega arith)) a,
            λ k t. spared key millis now k t r refl (λ before apart. rw kept apart),
          )
    step_of key now m r none (some (n, none)) pos holds room shown counter clear agree a =
        elim agree [ ]
    step_of key now m r none (some (n, some end)) pos holds room shown counter clear agree a =
        absurd (ground (arith, agree, clear))
    step_of key now m r (some w) none pos holds room shown counter clear agree a = elim agree [ ]
    step_of key now m r (some w) (some (n, none)) pos holds room shown counter clear agree a =
        elim agree [ ]
    step_of key now m r (some w) (some (n, some end)) pos holds room shown counter clear
          (n_pos, count, resets) a =
        let q = quota_of key in
        let millis = q.window_seconds * 1000 in
        let (held, on) = live_some (now * nanos_per_milli) (lookup key m) shown in
        let (reply, kept) =
          script_old server entry redis (redis_key limiter key) millis now n end r n_pos counter in
        let next : MemoryWindow = record w { count = saturating_add_u32 w.count 1 } in
        let more : saturating_add_u32 w.count 1 ≡ clamp_u32 (suc n) = ground arith in
        let left : (end - now) * nanos_per_milli ≡ w.resets_at - now * nanos_per_milli =
          omega (arith, resets) in
        let lives : ltb (now * nanos_per_milli) w.resets_at ≡ true = ground arith in
        rw (hit_within_live capacity key q (now * nanos_per_milli) m w held on, reply, left)
          (
            ap (λ c. ok (decision c q (w.resets_at - now * nanos_per_milli))) (sym more),
            length-insert_le key next m,
            Alike-insert key millis now m r next (rw (lives, kept) (omega arith, more, resets)) a,
            λ k t.
                spared key millis now k t r refl (λ before apart. rw kept (rw counter at before)),
          )

    IsClear-step :
        (key : Text) (now : ℕ) (r r' : R) (hits : List Hit)
        → ((k : Text) (t : ℕ) → IsSpared key now k t r → IsSpared key now k t r')
        → All
            (λ hit.
              (text_eq key hit.0 && hit.1 == now + (quota_of key).window_seconds * 1000) ≡ false)
            hits
        → IsClear now r hits
        → IsClear now r' hits
    unfolding IsClear IsSpared
    IsClear-step key now r r' [] spares apart clear = tt
    IsClear-step key now r r' ((k, t) ∷ hits) spares (away, apart) (before, clear) =
        ((spares k t (away, before)).1, IsClear-step key now r r' hits spares apart clear)

    module _ (positive : (k : Text) → 1 ≤ (quota_of k).window_seconds) where
      together :
          (from : ℕ) (hits : List Hit) (m : Map MemoryWindow) (r : R)
          → AreTimely quota_of from hits
          → length m + length hits ≤ capacity
          → Alike from m r
          → IsClear from r hits
          → decisions_redis quota_of server limiter r hits
            ≡ decisions_memory quota_of capacity m hits
      unfolding decisions_memory decisions_redis IsStep Alike IsClear
      together from [] m r timely room a clear = refl
      together from ((key, now) ∷ hits) m r (after, holds, apart, timely) room a clear =
          let here = Alike-later from now m r after a in
          let (own, others) = IsClear-later from now r ((key, now) ∷ hits) after clear in
          let (same, longer, next, spares) =
            step_of key now m r (live (now * nanos_per_milli) key m)
              (entry (redis_key limiter key) now r) (positive key) holds (omega (arith, room)) refl
              refl own (here key) here in
          ap₂ ◌∷◌ same (
            together now hits _ _ timely (omega (arith, longer, room)) next
              (IsClear-step key now r _ hits spares apart others))

      -- On a Redis server that keeps to its documentation, that answers every call and has no counter
      -- under the limiter's keys yet, hits in the order of their times, in whole milliseconds, are
      -- decided exactly as by the limiter in memory, starting empty, where every quota's window lasts
      -- a second or more and ends at a time that Redis can hold, there are no more hits than windows
      -- that the limiter in memory tracks, and no hit comes exactly one window after an earlier one of
      -- its key, which is when Redis may keep the counter for a millisecond more.
      pub decisions_redis-memory :
          (from : ℕ) (hits : List Hit) (r : R)
          → AreTimely quota_of from hits
          → length hits ≤ capacity
          → ((k : Text) → entry (redis_key limiter k) from r ≡ none)
          → decisions_redis quota_of server limiter r hits
            ≡ decisions_memory quota_of capacity [] hits
      unfolding Alike lookup
      decisions_redis-memory from hits r timely room fresh =
          together from hits [] r timely (omega (arith, room)) (λ k. rw (fresh k) tt)
            (IsClear-fresh from r hits fresh)
