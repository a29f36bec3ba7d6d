-- ===== src/Cache/Redis.antt =====
-- src/cache.rs: the cache in Redis. The server's commands and the JSON codec are parameters; a time
-- is in milliseconds, and a lifetime in nanoseconds.
use luxor.Base.{ℕ, ◌/◌, ◌^◌, ◌-◌, min, Option, none, some, ◌++◌, Text, codes, Result, ok, err, ◌>>◌}
use luxor.Error.{AppError, cache, serialization}
use luxor.Cache.{
  nanos_per_milli, validate_key, validate_ttl, CacheCall, gets, puts, invalidates, takes,
}

-- GET, PSETEX, DEL and GETDEL, each with what the server answers and is afterwards.
pub record RedisStore (R : Type 0) : Type 0 where
  pub get : Text → ℕ → R → Result Text (Option Text) × R
  pub pset_ex : Text → Text → ℕ → ℕ → R → Result Text (Unit {0}) × R
  pub del : Text → ℕ → R → Result Text ℕ × R
  pub get_del : Text → ℕ → R → Result Text (Option Text) × R

pub record RedisCache : Type 0 where
  pub namespace : Text

-- `u64::MAX`.
abbrev pub u64_max : ℕ
u64_max = 2 ^ 64 - 1

abbrev pub redis_key : RedisCache → Text → Text
redis_key store key = store.namespace ++ (codes ":" ++ key)

unfoldable pub namespaced_key : RedisCache → Text → Result AppError Text
unfolding ◌>>◌
namespaced_key store key = validate_key key >> ok (redis_key store key)

module _ {R V : Type 0} (server : RedisStore R) (to_string : V → Result Text Text)
    (from_str : Text → Result Text V) where
  abbrev Replied : Type 0
  Replied = Result AppError (Option V) × R

  abbrev pub keyed : Result AppError Text → R → (Text → Replied) → Replied
  keyed (err e) r command = (err e, r)
  keyed (ok key) r command = command key

  abbrev pub read : Result Text V → Result AppError (Option V)
  read (ok v) = ok (some v)
  read (err e) = err (serialization e)

  abbrev pub parsed : Result Text (Option Text) × R → Replied
  parsed (err e, r) = (err (cache e), r)
  parsed (ok none, r) = (ok none, r)
  parsed (ok (some text), r) = (read (from_str text), r)

  abbrev pub done : {A : Type 0} → Result Text A × R → Replied
  done (err e, r) = (err (cache e), r)
  done (ok a, r) = (ok none, r)

  unfoldable pub get_redis : RedisCache → Text → ℕ → R → Replied
  unfolding namespaced_key
  get_redis store key now r = keyed (namespaced_key store key) r (λ k. parsed (server.get k now r))

  abbrev pub put_serialized : RedisCache → Text → ℕ → ℕ → R → Result Text Text → Replied
  put_serialized store key ttl now r (err e) = (err (serialization e), r)
  put_serialized store key ttl now r (ok text) =
      keyed (namespaced_key store key) r
        (λ k. done (server.pset_ex k text (min (ttl / nanos_per_milli) u64_max) now r))

  abbrev pub put_if : Result AppError (Unit {0}) → RedisCache → Text → V → ℕ → ℕ → R → Replied
  put_if (err e) store key v ttl now r = (err e, r)
  put_if (ok _) store key v ttl now r = put_serialized store key ttl now r (to_string v)

  unfoldable pub put_redis : RedisCache → Text → V → ℕ → ℕ → R → Replied
  unfolding namespaced_key
  put_redis store key v ttl now r = put_if (validate_ttl ttl) store key v ttl now r

  unfoldable pub invalidate_redis : RedisCache → Text → ℕ → R → Replied
  unfolding namespaced_key
  invalidate_redis store key now r =
      keyed (namespaced_key store key) r (λ k. done (server.del k now r))

  unfoldable pub take_redis : RedisCache → Text → ℕ → R → Replied
  unfolding namespaced_key
  take_redis store key now r =
      keyed (namespaced_key store key) r (λ k. parsed (server.get_del k now r))

  unfoldable pub redis_step : RedisCache → CacheCall V → ℕ → R → Replied
  unfolding get_redis put_redis invalidate_redis take_redis
  redis_step store (gets key) now r = get_redis store key now r
  redis_step store (puts key v ttl) now r = put_redis store key v ttl now r
  redis_step store (invalidates key) now r = invalidate_redis store key now r
  redis_step store (takes key) now r = take_redis store key now r
