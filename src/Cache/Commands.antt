-- ===== src/Cache/Commands.antt =====
-- src/cache.rs: what the calls of the cache in Redis leave under each key, next to what those of the
-- cache in memory show there.
use luxor.Base.{
  ℕ, ◌*◌, ◌≡◌, refl, inl, inr, true, false, Option, none, Text, text_eq, Result-cases, Result, ok,
  arith,
}
use luxor.Error.{AppError}
use luxor.Cache.{
  nanos_per_milli, validate_key, validate_ttl, CacheCall, gets, puts, invalidates, takes,
}
use luxor.Cache.View.{admits, reply, after, key_of}
use luxor.Cache.Redis.{
  RedisStore, RedisCache, redis_key, namespaced_key, get_redis, put_redis, invalidate_redis,
  take_redis, redis_step,
}
use luxor.Cache.Encoding.{
  ends, IsStore, in_nanos, Fits, meets, outcome, IsCodec, Encodes, text_eq-redis_key, is_ok-true,
  is_ok_of_both, validate_ttl_positive, in_millis, is_ok-false, is_ok_second, lives, ends-if,
  Encodes-if, parsed-ok, done-ok,
}

module _ {R V : Type 0} (server : RedisStore R) (to_string : V → Result Text Text)
    (from_str : Text → Result Text V) (codec : IsCodec to_string from_str) where
  module _ (entry : Text → ℕ → R → Option (Text × ℕ)) (redis : IsStore server entry)
      (store : RedisCache) where
    unfoldable pub call : CacheCall V → ℕ → R → Result AppError (Option V) × R
    call c now r = redis_step server to_string from_str store (in_nanos c) now r

    -- What a call that goes through replies, and what the keys hold after it, where they held `o`.
    unfoldable pub GoesThrough : CacheCall V → ℕ → R → (Text → Option (V × ℕ)) → Type 0
    GoesThrough c now r o =
        ((call c now r).0 ≡ ok (reply (in_nanos c) (o (key_of (in_nanos c)))))
        × ((j : Text)
            → Encodes server to_string from_str codec now
                (after (in_nanos c) (now * nanos_per_milli) (now * nanos_per_milli) j (o j))
                (entry (redis_key store j) now (call c now r).1))
        × ((j : Text) (t : ℕ)
            → ends (entry (redis_key store j) now r) t ≡ false
            → meets c now j t ≡ false
            → ends (entry (redis_key store j) now (call c now r).1) t ≡ false)

    pub goes_through :
        (c : CacheCall V) (now : ℕ) (r : R) (o : Text → Option (V × ℕ))
        → Fits now c
        → admits (in_nanos c) ≡ true
        → ends (entry (redis_key store (key_of c)) now r) now ≡ false
        → ((j : Text)
            → Encodes server to_string from_str codec now (o j) (entry (redis_key store j) now r))
        → GoesThrough c now r o
    unfolding GoesThrough call redis_step get_redis namespaced_key
    goes_through (gets key) now r o fits admitted clear same =
        rw
          (
            is_ok-true (validate_key key) admitted,
            parsed-ok server to_string from_str codec now (server.get (redis_key store key) now r)
                (o key) _ (redis.get_value (redis_key store key) now r) clear (same key),
          )
          (
            refl,
            λ j. rw (redis.get_entry (redis_key store key) (redis_key store j) now r) (same j),
            λ j t before away.
                rw (redis.get_entry (redis_key store key) (redis_key store j) now r) before,
          )
    goes_through (puts key v ttl) now r o fits admitted clear same =
        let k = redis_key store key in
        let (valid, lasting) =
          is_ok_of_both (validate_key key) (validate_ttl (ttl * nanos_per_milli)) admitted in
        let pos = validate_ttl_positive ttl lasting in
        let (x, encoded) = codec.written v in
        rw
          (
            lasting,
            encoded,
            valid,
            in_millis now ttl fits,
            done-ok server to_string from_str codec (server.pset_ex k x ttl now r) tt
                (redis.set_value k x ttl now r pos fits),
          )
          (
            refl,
            λ j.
                rw
                  (
                    redis.set_entry k x (redis_key store j) ttl now r pos fits,
                    text_eq-redis_key store key j,
                  )
                  (Encodes-if server to_string from_str codec now (text_eq key j) _ _ _ _
                    (rw (lives now ttl pos) (encoded, omega arith)) (same j)),
            λ j t before away.
                rw
                  (
                    redis.set_entry k x (redis_key store j) ttl now r pos fits,
                    text_eq-redis_key store key j,
                  )
                  (ends-if t (text_eq key j) _ _ (λ own. ground (arith, own, away)) before),
          )
    goes_through (invalidates key) now r o fits admitted clear same =
        let k = redis_key store key in
        let (n, answers) = redis.del_value k now r in
        rw
          (
            is_ok-true (validate_key key) admitted,
            done-ok server to_string from_str codec (server.del k now r) n answers,
          )
          (
            refl,
            λ j.
                rw (redis.del_entry k (redis_key store j) now r, text_eq-redis_key store key j)
                  (Encodes-if server to_string from_str codec now (text_eq key j) none (o j) none _
                    tt (same j)),
            λ j t before away.
                rw (redis.del_entry k (redis_key store j) now r, text_eq-redis_key store key j)
                  (ends-if t (text_eq key j) none _ (λ own. refl) before),
          )
    goes_through (takes key) now r o fits admitted clear same =
        let k = redis_key store key in
        rw
          (
            is_ok-true (validate_key key) admitted,
            parsed-ok server to_string from_str codec now (server.get_del k now r) (o key) _
                (redis.take_value k now r) clear (same key),
          )
          (
            refl,
            λ j.
                rw (redis.take_entry k (redis_key store j) now r, text_eq-redis_key store key j)
                  (Encodes-if server to_string from_str codec now (text_eq key j) none (o j) none _
                    tt (same j)),
            λ j t before away.
                rw (redis.take_entry k (redis_key store j) now r, text_eq-redis_key store key j)
                  (ends-if t (text_eq key j) none _ (λ own. refl) before),
          )

    unfoldable pub Refuses : CacheCall V → ℕ → R → Type 0
    Refuses c now r = (outcome (call c now r).0 ≡ none) × ((call c now r).1 ≡ r)

    pub refuses :
        (c : CacheCall V) (now : ℕ) (r : R) → admits (in_nanos c) ≡ false → Refuses c now r
    unfolding Refuses call redis_step get_redis put_redis invalidate_redis take_redis namespaced_key
    refuses (gets key) now r refused = rw ((is_ok-false _ refused).1) (refl, refl)
    refuses (puts key v ttl) now r refused =
        elim (Result-cases (validate_ttl (ttl * nanos_per_milli))) [
          | inl (u, lasting) ↦
              let (x, encoded) = codec.written v in
              let (e, invalid) =
                is_ok-false (validate_key key) (is_ok_second _ _ refused lasting) in
              rw (lasting, encoded, invalid) (refl, refl)
          | inr (e, short) ↦ rw short (refl, refl)
        ]
    refuses (invalidates key) now r refused = rw ((is_ok-false _ refused).1) (refl, refl)
    refuses (takes key) now r refused = rw ((is_ok-false _ refused).1) (refl, refl)
