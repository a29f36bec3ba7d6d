-- ===== src/Cache.antt =====
-- src/cache.rs: the in-memory cache. Times are nanoseconds; each operation holds the lock
-- throughout, so it is one step at the time read under the lock. The cached JSON is any type.
pub mod View
pub mod Once
pub mod Redis
pub mod Encoding
pub mod Commands
pub mod Interchange
use luxor.Base.{
  ℕ, ◌+◌, ◌/◌, Bool, true, false, not, ◌&&◌, ◌||◌, Option, none, some, List, [], ◌∷◌, Text, codes,
  len, all, is_empty, ltb, leb, ◌==◌, is_ascii_alphanumeric, if◌then◌else◌, Result, ok, err, ◌>>=◌,
  ◌>>◌, ensure,
}
use luxor.Base.Map.{Map, lookup, insert, remove, keep}
use luxor.Error.{AppError, bad_request}

abbrev pub nanos_per_milli : ℕ
nanos_per_milli = 1000000

-- The key's bytes are all ASCII exactly when its characters are.
unfoldable pub validate_key : Text → Result AppError (Unit {0})
unfolding len is_ascii_alphanumeric
validate_key key =
    ensure
      (not (
        is_empty key
        || ltb 128 (len key)
        || not (all (λ c. is_ascii_alphanumeric c || c == b':' || c == b'-' || c == b'_') key)))
      (bad_request (codes "cache key must be 1-128 URL-safe characters"))

unfoldable pub validate_ttl : ℕ → Result AppError (Unit {0})
validate_ttl ttl =
    ensure (not (ttl / nanos_per_milli == 0))
      (bad_request (codes "cache TTL must be at least one millisecond"))

-- A `MemoryEntry` is a value and when it expires.
module _ {V : Type 0} where
  abbrev pub is_fresh : ℕ → V × ℕ → Bool
  is_fresh now e = ltb now e.1

  abbrev pub value_of : Option (V × ℕ) → Option V
  value_of none = none
  value_of (some e) = some e.0

  -- What follows the validation: a reply and the values left.
  abbrev pub checked :
      Result AppError (Unit {0})
      → Map (V × ℕ)
      → Option V × Map (V × ℕ)
      → Result AppError (Option V) × Map (V × ℕ)
  checked (ok _) m (v, m') = (ok v, m')
  checked (err e) m r = (err e, m)

  unfoldable pub read_entry : Text → ℕ → Map (V × ℕ) → Option V × Map (V × ℕ)
  unfolding lookup remove
  read_entry key now m = elim (lookup key m) [
    | none ↦ (none, m)
    | some e ↦ if is_fresh now e then (some e.0, m) else (none, remove key m)
  ]

  unfoldable pub get_json : Text → ℕ → Map (V × ℕ) → Result AppError (Option V) × Map (V × ℕ)
  unfolding read_entry
  get_json key now m = checked (validate_key key) m (read_entry key now m)

  unfoldable pub put_json :
      Text → V → ℕ → ℕ → Map (V × ℕ) → Result AppError (Option V) × Map (V × ℕ)
  put_json key value ttl now m =
      checked (validate_key key >> validate_ttl ttl) m (none, insert key (value, now + ttl) m)

  unfoldable pub invalidate : Text → Map (V × ℕ) → Result AppError (Option V) × Map (V × ℕ)
  invalidate key m = checked (validate_key key) m (none, remove key m)

  unfoldable pub take_json : Text → ℕ → Map (V × ℕ) → Result AppError (Option V) × Map (V × ℕ)
  take_json key now m =
      checked (validate_key key) m (value_of (keep (is_fresh now) (lookup key m)), remove key m)

-- The calls of the `Cache` trait.
pub data CacheCall (V : Type 0) : Type 0 where
  gets invalidates takes : Text → CacheCall V
  puts : Text → V → ℕ → CacheCall V

unfoldable pub cache_step :
    {V : Type 0} → CacheCall V → ℕ → Map (V × ℕ) → Result AppError (Option V) × Map (V × ℕ)
unfolding get_json put_json invalidate take_json
cache_step (gets key) now m = get_json key now m
cache_step (puts key v ttl) now m = put_json key v ttl now m
cache_step (invalidates key) now m = invalidate key m
cache_step (takes key) now m = take_json key now m

unfoldable pub cache_run : {V : Type 0} → List (CacheCall V × ℕ) → Map (V × ℕ) → Map (V × ℕ)
unfolding cache_step
cache_run [] m = m
cache_run ((c, now) ∷ cs) m = cache_run cs (cache_step c now m).1
