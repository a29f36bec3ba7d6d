-- ===== src/Cache/Encoding.antt =====
-- src/cache.rs: what Redis documents of its commands and JSON of its texts, and what an entry in Redis
-- says of one in memory.
use luxor.Base.{
  ℕ, zero, suc, ◌-◌, ◌^◌, ◌⊎◌, ◌&&◌, ◌==◌, ◌+◌, ◌*◌, ◌≤◌, ◌<◌, ◌/◌, ◌≡◌, refl, ◌∙◌, inl, inr, Bool,
  true, false, min, Option, none, some, [], ◌∷◌, ◌++◌, Text, codes, text_eq, ltb, if◌then◌else◌,
  Bool-cases, Result, ok, err, is_ok, ◌>>◌, arith,
}
use luxor.Base.Map.{keep}
use luxor.Error.{AppError}
use luxor.Cache.{nanos_per_milli, validate_ttl, is_fresh, value_of, CacheCall, puts}
use luxor.Cache.Redis.{RedisStore, RedisCache, u64_max, redis_key, parsed, done}

-- Whether an entry expires in this very millisecond.
abbrev pub ends : {A : Type 0} → Option (A × ℕ) → ℕ → Bool
ends none t = false
ends (some (x, last)) t = t == last

-- `i64::MAX`, the last millisecond that Redis can have an entry expire in.
abbrev pub i64_max : ℕ
i64_max = 2 ^ 63 - 1

-- What Redis documents of the four commands, and of time, where it answers: a text and when it
-- expires, at each key. An entry is there before its time, and gone after it; in the very millisecond
-- it may be either, since a key expires up to a millisecond late.
pub record IsStore {R : Type 0} (server : RedisStore R) (entry : Text → ℕ → R → Option (Text × ℕ))
    : Type 0 where
  pub get_value :
      (k : Text) (now : ℕ) (r : R) → (server.get k now r).0 ≡ ok (value_of (entry k now r))
  pub get_entry :
      (k j : Text) (now : ℕ) (r : R) → entry j now (server.get k now r).1 ≡ entry j now r
  pub set_value :
      (k x : Text) (millis now : ℕ) (r : R)
      → 0 < millis
      → now + millis ≤ i64_max
      → (server.pset_ex k x millis now r).0 ≡ ok tt
  pub set_entry :
      (k x j : Text) (millis now : ℕ) (r : R)
      → 0 < millis
      → now + millis ≤ i64_max
      → entry j now (server.pset_ex k x millis now r).1
        ≡ (if text_eq k j then some (x, now + millis) else entry j now r)
  pub del_value : (k : Text) (now : ℕ) (r : R) → (n : ℕ) × ((server.del k now r).0 ≡ ok n)
  pub del_entry :
      (k j : Text) (now : ℕ) (r : R)
      → entry j now (server.del k now r).1 ≡ (if text_eq k j then none else entry j now r)
  pub take_value :
      (k : Text) (now : ℕ) (r : R) → (server.get_del k now r).0 ≡ ok (value_of (entry k now r))
  pub take_entry :
      (k j : Text) (now : ℕ) (r : R)
      → entry j now (server.get_del k now r).1 ≡ (if text_eq k j then none else entry j now r)
  pub passes :
      (k : Text) (now later : ℕ) (r : R)
      → now ≤ later
      → (entry k later r ≡ keep (is_fresh later) (entry k now r))
        ⊎ ((ends (entry k now r) later ≡ true) × (entry k later r ≡ entry k now r))

text_eq-append : (s k j : Text) → text_eq (s ++ k) (s ++ j) ≡ text_eq k j
unfolding text_eq
text_eq-append [] k j = refl
text_eq-append (c ∷ s) k j = ground (arith, text_eq-append s k j)

pub text_eq-redis_key :
    (store : RedisCache) (k j : Text)
    → text_eq (redis_key store k) (redis_key store j) ≡ text_eq k j
text_eq-redis_key store k j = text_eq-append store.namespace _ _ ∙ text_eq-append (codes ":") k j

-- A call with its lifetime in milliseconds, as the caches are given it.
abbrev pub in_nanos : {V : Type 0} → CacheCall V → CacheCall V
in_nanos (puts key v ttl) = puts key v (ttl * nanos_per_milli)
in_nanos c = c

-- A value put now expires at a time that Redis can hold.
abbrev pub Fits : {V : Type 0} → ℕ → CacheCall V → Type 0
Fits now (puts key v ttl) = now + ttl ≤ i64_max
Fits now _ = Unit

-- Whether a key is named in the very millisecond in which a value put under it now expires.
abbrev pub meets : {V : Type 0} → CacheCall V → ℕ → Text → ℕ → Bool
meets (puts key v ttl) now j t = text_eq key j && t == now + ttl
meets _ now j t = false

-- What a caller learns from a reply, its error aside.
abbrev pub outcome : {V : Type 0} → Result AppError (Option V) → Option (Option V)
outcome (ok value) = some value
outcome (err e) = none

pub is_ok-true : (r : Result AppError (Unit {0})) → is_ok r ≡ true → r ≡ ok tt
is_ok-true (ok u) h = refl
is_ok-true (err e) h = cc

pub is_ok_of_both :
    (p q : Result AppError (Unit {0})) → is_ok (p >> q) ≡ true → (p ≡ ok tt) × (q ≡ ok tt)
unfolding ◌>>◌
is_ok_of_both (ok u) (ok w) h = (refl, refl)
is_ok_of_both (ok u) (err e) h = cc
is_ok_of_both (err e) q h = cc

pub validate_ttl_positive : (ttl : ℕ) → validate_ttl (ttl * nanos_per_milli) ≡ ok tt → 0 < ttl
unfolding validate_ttl
validate_ttl_positive zero h = cc
validate_ttl_positive (suc ttl) h = omega arith

pub in_millis :
    (now ttl : ℕ)
    → now + ttl ≤ i64_max
    → min (ttl * nanos_per_milli / nanos_per_milli) u64_max ≡ ttl
in_millis now ttl h = ground arith

pub is_ok-false : (r : Result AppError (Unit {0})) → is_ok r ≡ false → (e : AppError) × (r ≡ err e)
is_ok-false (ok u) h = cc
is_ok-false (err e) h = (e, refl)

pub is_ok_second :
    (p q : Result AppError (Unit {0})) → is_ok (p >> q) ≡ false → q ≡ ok tt → is_ok p ≡ false
unfolding ◌>>◌
is_ok_second (ok u) q h e = cc
is_ok_second (err e) q h same = refl

pub lives :
    (now ttl : ℕ)
    → 0 < ttl
    → ltb (now * nanos_per_milli) (now * nanos_per_milli + ttl * nanos_per_milli) ≡ true
lives now ttl h = ground arith

pub ends-if :
    {A : Type 0} (t : ℕ) (b : Bool) (e e' : Option (A × ℕ))
    → (b ≡ true → ends e t ≡ false)
    → ends e' t ≡ false
    → ends (if b then e else e') t ≡ false
ends-if t true e e' own other = own refl
ends-if t false e e' own other = other

-- What JSON promises of the values that are cached.
pub record IsCodec {V : Type 0} (to_string : V → Result Text Text) (from_str : Text → Result Text V)
    : Type 0 where
  pub written : (v : V) → (x : Text) × (to_string v ≡ ok x)
  pub read_back : (v : V) (x : Text) → to_string v ≡ ok x → from_str x ≡ ok v

module _ {R V : Type 0} (server : RedisStore R) (to_string : V → Result Text Text)
    (from_str : Text → Result Text V) (codec : IsCodec to_string from_str) where
  -- What is left of a value in memory and in Redis; where nothing is, an entry may be in its last
  -- millisecond.
  abbrev pub Encodes : ℕ → Option (V × ℕ) → Option (Text × ℕ) → Type 0
  Encodes now none none = Unit
  Encodes now none (some (x, last)) = last ≡ now
  Encodes now (some (v, end)) (some (x, last)) =
      (to_string v ≡ ok x) × (end ≡ last * nanos_per_milli)
  Encodes now _ _ = ⊥

  pub Encodes-until :
      (now later : ℕ) (o : Option (V × ℕ)) (e : Option (Text × ℕ))
      → now ≤ later
      → Encodes now o e
      → Encodes later (keep (is_fresh (later * nanos_per_milli)) o) (keep (is_fresh later) e)
  Encodes-until now later none none le h = tt
  Encodes-until now later none (some (x, last)) le h =
      let gone : ltb later last ≡ false = ground arith in rw gone tt
  Encodes-until now later (some v) none le h = elim h [ ]
  Encodes-until now later (some (v, end)) (some (x, last)) le (same, expires) =
      elim (Bool-cases (ltb later last)) [
        | inl on ↦
            let still : ltb (later * nanos_per_milli) end ≡ true = ground arith in
            rw (on, still) (same, expires)
        | inr over ↦
            let gone : ltb (later * nanos_per_milli) end ≡ false = ground arith in
            rw (over, gone) tt
      ]

  pub Encodes-kept :
      (now later : ℕ) (o : Option (V × ℕ)) (e : Option (Text × ℕ))
      → ends e later ≡ true
      → Encodes now o e
      → Encodes later (keep (is_fresh (later * nanos_per_milli)) o) e
  Encodes-kept now later o none here h = cc
  Encodes-kept now later none (some (x, last)) here h = ground arith
  Encodes-kept now later (some (v, end)) (some (x, last)) here (same, expires) =
      let gone : ltb (later * nanos_per_milli) end ≡ false = ground arith in rw gone (ground arith)

  pub Encodes-if :
      (now : ℕ) (b : Bool) (o o' : Option (V × ℕ)) (e e' : Option (Text × ℕ))
      → Encodes now o e
      → Encodes now o' e'
      → Encodes now (if b then o else o') (if b then e else e')
  Encodes-if now true o o' e e' on off = on
  Encodes-if now false o o' e e' on off = off

  pub parsed-ok :
      (now : ℕ) (p : Result Text (Option Text) × R) (o : Option (V × ℕ)) (e : Option (Text × ℕ))
      → p.0 ≡ ok (value_of e)
      → ends e now ≡ false
      → Encodes now o e
      → parsed server to_string from_str p ≡ (ok (value_of o), p.1)
  parsed-ok now p none none h clear same = rw h refl
  parsed-ok now p none (some (x, last)) h clear same = absurd (ground (arith, same, clear))
  parsed-ok now p (some v) none h clear same = elim same [ ]
  parsed-ok now (q, r) (some (v, end)) (some (x, last)) h clear (same, expires) =
      rw (h, codec.read_back v x same) refl

  pub done-ok :
      {A : Type 0} (p : Result Text A × R) (a : A)
      → p.0 ≡ ok a
      → done server to_string from_str p ≡ (ok none, p.1)
  done-ok (q, r) a h = rw h refl
