-- ===== src/Demo/Stored.antt =====
-- src/demo/handlers/cache.rs: the endpoints on one entry of the cache, on the cache in memory. A time
-- is in nanoseconds.
use luxor.Base.{
  ℕ, ◌+◌, ◌*◌, ◌≤◌, ◌<◌, ◌≡◌, refl, Bool, true, false, ◌&&◌, Option, none, some, Text, codes, leb,
  le→leb, lt→ltb, le→ltb, if◌then◌else◌, Result, ok, err, ◌>>◌, arith,
}
use luxor.Base.Map.{Map, lookup-insert_self}
use luxor.Error.{AppError, bad_request}
use luxor.Cache.{get_json, put_json, invalidate, read_entry, validate_key, validate_ttl}

abbrev pub demo_key : Text
demo_key = codes "demo:value"

abbrev pub default_ttl : ℕ
default_ttl = 300

-- `Duration::from_secs`.
abbrev pub seconds : ℕ → ℕ
seconds n = n * 1000000000

abbrev pub invalid_ttl : AppError
invalid_ttl = bad_request (codes "ttl_seconds must be between 1 and 86400")

-- A body's value and its `ttl_seconds`, if it gives one.
pub record CachePutRequest (V : Type 0) : Type 0 where
  pub value : V
  pub ttl_seconds : Option ℕ

pub record CacheResponse (V : Type 0) : Type 0 where
  pub hit : Bool
  pub value : Option V

abbrev pub ttl_of : Option ℕ → ℕ
ttl_of none = default_ttl
ttl_of (some n) = n

abbrev pub is_ttl : ℕ → Bool
is_ttl n = leb 1 n && leb n 86400

abbrev pub Entries : Type 0 → Type 0
Entries V = Map (V × ℕ)

long_enough : (ttl : ℕ) → 1 ≤ ttl → validate_ttl (seconds ttl) ≡ ok tt
unfolding validate_ttl
long_enough ttl h = ground arith

within_day : (ttl : ℕ) → 1 ≤ ttl → ttl ≤ 86400 → is_ttl ttl ≡ true
within_day ttl h k = rw (le→leb 1 ttl h, le→leb ttl 86400 k) refl

module _ {V : Type 0} where
  abbrev shown : Option V → CacheResponse V
  shown none = record { hit = false; value = none }
  shown (some value) = record { hit = true; value = some value }

  abbrev got :
      Result AppError (Option V) × Entries V → Result AppError (CacheResponse V) × Entries V
  got (ok value, entries) = (ok (shown value), entries)
  got (err e, entries) = (err e, entries)

  unfoldable pub get_demo : ℕ → Entries V → Result AppError (CacheResponse V) × Entries V
  unfolding get_json
  get_demo now entries = got (get_json demo_key now entries)

  abbrev stored :
      V → Result AppError (Option V) × Entries V → Result AppError (CacheResponse V) × Entries V
  stored value (ok _, entries) = (ok (record { hit = true; value = some value }), entries)
  stored value (err e, entries) = (err e, entries)

  unfoldable pub put_demo :
      CachePutRequest V → ℕ → Entries V → Result AppError (CacheResponse V) × Entries V
  unfolding put_json
  put_demo request now entries =
      let ttl = ttl_of request.ttl_seconds in
      if is_ttl ttl
      then stored request.value (put_json demo_key request.value (seconds ttl) now entries)
      else (err invalid_ttl, entries)

  abbrev deleted : Result AppError (Option V) × Entries V → Result AppError ℕ × Entries V
  deleted (ok _, entries) = (ok 204, entries)
  deleted (err e, entries) = (err e, entries)

  unfoldable pub delete_demo : Entries V → Result AppError ℕ × Entries V
  unfolding invalidate
  delete_demo entries = deleted (invalidate demo_key entries)

  -- A value stored for 1 to 86400 seconds is what the endpoint reads until they are over, and from
  -- then on it is gone.
  pub put_demo-get_demo :
      (value : V) (ttl now later : ℕ) (entries : Entries V)
      → 1 ≤ ttl
      → ttl ≤ 86400
      → let (answer, kept) =
          put_demo record { value = value; ttl_seconds = some ttl } now entries in
        (answer ≡ ok record { hit = true; value = some value })
        × (later < now + seconds ttl
            → (get_demo later kept).0 ≡ ok record { hit = true; value = some value })
        × (now + seconds ttl ≤ later
            → (get_demo later kept).0 ≡ ok record { hit = false; value = none })
  unfolding put_demo get_demo put_json get_json read_entry validate_key ◌>>◌
  put_demo-get_demo value ttl now later entries h k =
      rw (within_day ttl h k, long_enough ttl h)
        (
          refl,
          λ early.
              rw
                (
                  read_entry,
                  lookup-insert_self demo_key (value, now + seconds ttl) entries,
                  lt→ltb later (now + seconds ttl) early,
                )
                refl,
          λ late.
              rw
                (
                  read_entry,
                  lookup-insert_self demo_key (value, now + seconds ttl) entries,
                  le→ltb later (now + seconds ttl) late,
                )
                refl,
        )
