-- ===== src/Cache/Interchange.antt =====
-- src/cache.rs: the cache in Redis next to the one in memory.
use luxor.Base.{
  ℕ, ◌*◌, ltb, All, All-map, ◌≤◌, ◌⊎◌, ◌≡◌, refl, sym, ap, ap₂, ◌∙◌, inl, inr, Bool, true, false,
  Option, none, some, List, [], ◌∷◌, Text, Bool-cases, Result, ok, err, is_ok, arith,
}
use luxor.Base.Map.{Map, lookup, keep}
use luxor.Error.{AppError}
use luxor.Cache.{nanos_per_milli, is_fresh, CacheCall, cache_step}
use luxor.Cache.View.{shown, admits, after, key_of, cache_step-refines}
use luxor.Cache.Redis.{RedisStore, RedisCache, redis_key, redis_step}
use luxor.Cache.Encoding.{
  IsStore, in_nanos, Fits, outcome, IsCodec, Encodes, Encodes-until, Encodes-kept, ends, meets,
}
use luxor.Cache.Commands.{call, GoesThrough, goes_through, Refuses, refuses}

outcome_err : {V : Type 0} (r : Result AppError (Option V)) → is_ok r ≡ false → outcome r ≡ none
outcome_err (ok v) h = cc
outcome_err (err e) h = refl

yes_side :
    {A B C D : Type 0} {b : Bool} → b ≡ true → ((b ≡ true) × A × B) ⊎ ((b ≡ false) × C × D) → A × B
yes_side h (inl (holds, a, b)) = (a, b)
yes_side h (inr (fails, c, d)) = cc

no_side :
    {A B C D : Type 0} {b : Bool} → b ≡ false → ((b ≡ true) × A × B) ⊎ ((b ≡ false) × C × D) → C × D
no_side h (inl (holds, a, b)) = cc
no_side h (inr (fails, c, d)) = (c, d)

kept_again :
    {V : Type 0} (now later : ℕ) (o : Option (V × ℕ))
    → now ≤ later
    → keep (is_fresh (later * nanos_per_milli)) (keep (is_fresh (now * nanos_per_milli)) o)
      ≡ keep (is_fresh (later * nanos_per_milli)) o
kept_again now later none h = refl
kept_again now later (some w) h = ground arith

ends-fresh :
    {A : Type 0} (later t : ℕ) (e : Option (A × ℕ))
    → ends e t ≡ false
    → ends (keep (is_fresh later) e) t ≡ false
ends-fresh later t none h = refl
ends-fresh later t (some (x, last)) h = elim (Bool-cases (ltb later last)) [
  | inl on ↦ rw on h
  | inr over ↦ rw over refl
]

-- Calls at times in milliseconds, none earlier than one before it, whose values expire at times that
-- Redis can hold, and none of a key in the very millisecond in which a value put under it expires.
abbrev pub AreTimely : {V : Type 0} → ℕ → List (CacheCall V × ℕ) → Type 0
AreTimely from [] = Unit
AreTimely from ((c, now) ∷ calls) =
    (from ≤ now)
    × Fits now c
    × All (λ later. meets c now (key_of later.0) later.1 ≡ false) calls
    × AreTimely now calls

unfoldable pub outcomes_memory :
    {V : Type 0} → Map (V × ℕ) → List (CacheCall V × ℕ) → List (Option (Option V))
outcomes_memory m [] = []
outcomes_memory m ((c, now) ∷ calls) =
    let (answer, next) = cache_step (in_nanos c) (now * nanos_per_milli) m in
    outcome answer ∷ outcomes_memory next calls

module _ {R V : Type 0} (server : RedisStore R) (to_string : V → Result Text Text)
    (from_str : Text → Result Text V) (codec : IsCodec to_string from_str) where
  module _ (entry : Text → ℕ → R → Option (Text × ℕ)) (redis : IsStore server entry)
      (store : RedisCache) where
    -- Each key shows the same value in both caches, to the same time.
    Alike : ℕ → Map (V × ℕ) → R → Type 0
    Alike now m r =
        (j : Text)
        → Encodes server to_string from_str codec now (shown (now * nanos_per_milli) j m)
            (entry (redis_key store j) now r)

    Alike-later :
        (now later : ℕ) (m : Map (V × ℕ)) (r : R) → now ≤ later → Alike now m r → Alike later m r
    unfolding Alike
    Alike-later now later m r h a k =
        let visible = shown (now * nanos_per_milli) k m in
        let again = kept_again now later (lookup k m) h in
        elim (redis.passes (redis_key store k) now later r h) [
          | inl past ↦ rw past (
              rw again at
                (Encodes-until server to_string from_str codec now later visible _ h (a k)))
          | inr (last, kept) ↦ rw kept (
              rw again at
                (Encodes-kept server to_string from_str codec now later visible _ last (a k)))
        ]

    -- No call comes in the last millisecond of what its key holds.
    IsClear : ℕ → R → List (CacheCall V × ℕ) → Type 0
    IsClear now r calls =
        All (λ later. ends (entry (redis_key store (key_of later.0)) now r) later.1 ≡ false) calls

    IsClear-fresh :
        (now : ℕ) (r : R) (calls : List (CacheCall V × ℕ))
        → ((j : Text) → entry (redis_key store j) now r ≡ none)
        → IsClear now r calls
    unfolding IsClear
    IsClear-fresh now r [] fresh = tt
    IsClear-fresh now r ((c, t) ∷ calls) fresh =
        (rw (fresh (key_of c)) refl, IsClear-fresh now r calls fresh)

    IsClear-later :
        (now later : ℕ) (r : R) (calls : List (CacheCall V × ℕ))
        → now ≤ later
        → IsClear now r calls
        → IsClear later r calls
    unfolding IsClear
    IsClear-later now later r calls h clear =
        All-map _ _ (λ c. clear_of c.1 (redis_key store (key_of c.0))) calls clear
      where
        clear_of :
            (t : ℕ) (k : Text) → ends (entry k now r) t ≡ false → ends (entry k later r) t ≡ false
        clear_of t k c = elim (redis.passes k now later r h) [
          | inl past ↦ rw past (ends-fresh later t _ c)
          | inr (last, kept) ↦ rw kept c
        ]

    -- What a call leaves is clear of the later calls that meet no value it has put.
    Spares : CacheCall V → ℕ → R → R → Type 0
    Spares c now r r' =
        (j : Text) (t : ℕ)
        → ends (entry (redis_key store j) now r) t ≡ false
        → meets c now j t ≡ false
        → ends (entry (redis_key store j) now r') t ≡ false

    IsClear-step :
        (c : CacheCall V) (now : ℕ) (r r' : R) (calls : List (CacheCall V × ℕ))
        → Spares c now r r'
        → All (λ later. meets c now (key_of later.0) later.1 ≡ false) calls
        → IsClear now r calls
        → IsClear now r' calls
    unfolding IsClear Spares
    IsClear-step c now r r' [] spares apart clear = tt
    IsClear-step c now r r' ((next, t) ∷ calls) spares (away, apart) (before, clear) =
        (spares (key_of next) t before away, IsClear-step c now r r' calls spares apart clear)

    IsStep : CacheCall V → ℕ → Map (V × ℕ) → R → Type 0
    IsStep c now m r =
        let (answer, m') = cache_step (in_nanos c) (now * nanos_per_milli) m in
        (outcome (call server to_string from_str codec entry redis store c now r).0
          ≡ outcome answer)
        × Alike now m' (call server to_string from_str codec entry redis store c now r).1
        × Spares c now r (call server to_string from_str codec entry redis store c now r).1

    step :
        (c : CacheCall V) (now : ℕ) (m : Map (V × ℕ)) (r : R)
        → Fits now c
        → ends (entry (redis_key store (key_of c)) now r) now ≡ false
        → Alike now m r
        → IsStep c now m r
    unfolding IsStep Alike GoesThrough Refuses Spares
    step c now m r fits clear a =
        let T = now * nanos_per_milli in
        elim (Bool-cases (admits (in_nanos c))) [
          | inl admitted ↦
              let (answers, holds, spares) =
                goes_through server to_string from_str codec entry redis store c now r
                  (λ j. shown T j m) fits admitted clear a in
              (
                ap outcome answers
                    ∙ sym (
                        ap outcome
                          (yes_side admitted
                            (cache_step-refines (in_nanos c) T T [] m (omega arith))).0),
                λ j.
                    rw
                      ((yes_side admitted
                        (cache_step-refines (in_nanos c) T T j m (omega arith))).1)
                      (holds j),
                spares,
              )
          | inr refused ↦
              let (answers, same) =
                refuses server to_string from_str codec entry redis store c now r refused in
              let (fails, kept) =
                no_side refused (cache_step-refines (in_nanos c) T T [] m (omega arith)) in
              (
                answers ∙ sym (outcome_err _ fails),
                rw (same, kept) a,
                λ j t before away. rw same before,
              )
        ]

    unfoldable pub outcomes_redis : R → List (CacheCall V × ℕ) → List (Option (Option V))
    outcomes_redis r [] = []
    outcomes_redis r ((c, now) ∷ calls) =
        let (answer, next) = redis_step server to_string from_str store (in_nanos c) now r in
        outcome answer ∷ outcomes_redis next calls

    together :
        (from : ℕ) (calls : List (CacheCall V × ℕ)) (m : Map (V × ℕ)) (r : R)
        → AreTimely from calls
        → Alike from m r
        → IsClear from r calls
        → outcomes_redis r calls ≡ outcomes_memory m calls
    unfolding outcomes_memory outcomes_redis IsStep Alike IsClear call
    together from [] m r timely a clear = refl
    together from ((c, now) ∷ calls) m r (after, fits, apart, timely) a clear =
        let (own, others) = IsClear-later from now r ((c, now) ∷ calls) after clear in
        let (same, next, spares) = step c now m r fits own (Alike-later from now m r after a) in
        ap₂ ◌∷◌ same
          (together now calls _ _ timely next (IsClear-step c now r _ calls spares apart others))

    -- Where Redis keeps to its documentation and answers every call, JSON reads back what it writes,
    -- and nothing is stored yet under the cache's namespace, calls in the order of their times, in
    -- whole milliseconds, have the same outcomes as from the cache in memory, starting empty: the same
    -- values, and a failure at the same calls. Lifetimes are whole milliseconds and end at times that
    -- Redis can hold, and no call names a key in the very millisecond in which a value put under it
    -- expires, which is when Redis may still show it.
    pub outcomes_redis-memory :
        (from : ℕ) (calls : List (CacheCall V × ℕ)) (r : R)
        → AreTimely from calls
        → ((j : Text) → entry (redis_key store j) from r ≡ none)
        → outcomes_redis r calls ≡ outcomes_memory [] calls
    unfolding Alike lookup
    outcomes_redis-memory from calls r timely fresh =
        together from calls [] r timely (λ j. rw (fresh j) tt) (IsClear-fresh from r calls fresh)
