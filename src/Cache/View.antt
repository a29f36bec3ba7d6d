-- ===== src/Cache/View.antt =====
-- src/cache.rs: the cache as what it shows at each time, a specification without stale entries.
use luxor.Base.{
  ℕ, ◌+◌, ◌≤◌, ◌≡◌, refl, ap, ◌⊎◌, inl, inr, Bool, true, false, Option, none, some, Text, is_ok,
  text_eq, text_eq→eq, if◌then◌else◌, Bool-cases, Option-cases, Result, ok, err, ◌>>◌, arith,
}
use luxor.Base.Map.{Map, lookup, insert, remove, keep, lookup-insert, lookup-remove}
use luxor.Error.{AppError}
use luxor.Cache.{
  validate_key, validate_ttl, is_fresh, value_of, checked, read_entry, CacheCall, gets, puts,
  invalidates, takes, cache_step,
}

module _ {V : Type 0} where
  -- The entry that a key shows at a time: none once it has expired.
  abbrev pub shown : ℕ → Text → Map (V × ℕ) → Option (V × ℕ)
  shown t key m = keep (is_fresh t) (lookup key m)

  -- A call goes through if it names a valid key, and a lifetime of at least a millisecond.
  abbrev pub admits : CacheCall V → Bool
  admits (gets key) = is_ok (validate_key key)
  admits (puts key v ttl) = is_ok (validate_key key >> validate_ttl ttl)
  admits (invalidates key) = is_ok (validate_key key)
  admits (takes key) = is_ok (validate_key key)

  -- What an admitted call replies, given what its key shows.
  abbrev pub reply : CacheCall V → Option (V × ℕ) → Option V
  reply (gets key) o = value_of o
  reply (puts key v ttl) o = none
  reply (invalidates key) o = none
  reply (takes key) o = value_of o

  -- What key `j` shows at time `t` after an admitted call at `now`.
  abbrev pub after : CacheCall V → ℕ → ℕ → Text → Option (V × ℕ) → Option (V × ℕ)
  after (gets key) now t j o = o
  after (puts key v ttl) now t j o =
      if text_eq key j then keep (is_fresh t) (some (v, now + ttl)) else o
  after (invalidates key) now t j o = if text_eq key j then none else o
  after (takes key) now t j o = if text_eq key j then none else o

  abbrev pub key_of : CacheCall V → Text
  key_of (gets key) = key
  key_of (puts key v ttl) = key
  key_of (invalidates key) = key
  key_of (takes key) = key

  shown-remove :
      (t : ℕ) (key j : Text) (m : Map (V × ℕ))
      → shown t j (remove key m) ≡ (if text_eq key j then none else shown t j m)
  shown-remove t key j m = rw (lookup-remove key j m) (ground arith)

  shown-insert :
      (t : ℕ) (key j : Text) (e : V × ℕ) (m : Map (V × ℕ))
      → shown t j (insert key e m)
        ≡ (if text_eq key j then keep (is_fresh t) (some e) else shown t j m)
  shown-insert t key j e m = rw (lookup-insert key j e m) (ground arith)

  read_entry_reply :
      (key : Text) (now : ℕ) (m : Map (V × ℕ))
      → (read_entry key now m).0 ≡ value_of (shown now key m)
  unfolding read_entry
  read_entry_reply key now m = go (lookup key m)
    where
      go :
          (o : Option (V × ℕ))
          → (let r : Option V × Map (V × ℕ) = elim o [
            | none ↦ (none, m)
            | some e ↦ if is_fresh now e then (some e.0, m) else (none, remove key m)
          ] in
              r.0)
            ≡ value_of (keep (is_fresh now) o)
      go none = refl
      go (some e) = ground arith

  shown-read_entry :
      (key j : Text) (now t : ℕ) (m : Map (V × ℕ))
      → now ≤ t
      → shown t j (read_entry key now m).1 ≡ shown t j m
  unfolding read_entry
  shown-read_entry key j now t m h = elim (Option-cases (lookup key m)) [
    | inl e ↦ rw (e, read_entry)
    | inr (v, e) ↦ elim (Bool-cases (is_fresh now v)) [
      | inl fresh ↦ rw (e, read_entry, fresh)
      | inr stale ↦
          rw (e, read_entry, stale, shown-remove t key j m)
            (ground (arith, text_eq→eq key j, stale_at_key v e stale))
    ]
  ]
    where
      stale_at_key :
          (v : V × ℕ)
          → lookup key m ≡ some v
          → is_fresh now v ≡ false
          → text_eq key j ≡ true
          → shown t j m ≡ none
      stale_at_key v e stale same = rw (← text_eq→eq key j same, e) (ground arith)

  -- The two ways in which a validation ends.
  checked_split {κ} :
      (P : Bool → Result AppError (Option V) × Map (V × ℕ) → Type κ)
      (r : Result AppError (Unit {0})) (m : Map (V × ℕ)) (p : Option V × Map (V × ℕ))
      → P true (ok p.0, p.1)
      → ((e : AppError) → P false (err e, m))
      → P (is_ok r) (checked r m p)
  checked_split P (ok u) m p passed failed = passed
  checked_split P (err e) m p passed failed = failed e

  -- What the specification allows a call to leave behind.
  abbrev Meets :
      CacheCall V
      → ℕ
      → ℕ
      → Text
      → Map (V × ℕ)
      → Bool
      → Result AppError (Option V) × Map (V × ℕ)
      → Type 0
  Meets c now t j m admitted r =
      ((admitted ≡ true)
        × (r.0 ≡ ok (reply c (shown now (key_of c) m)))
        × (shown t j r.1 ≡ after c now t j (shown t j m)))
      ⊎ ((admitted ≡ false) × (is_ok r.0 ≡ false) × (r.1 ≡ m))

  -- Each call of the cache either is admitted, and then replies and changes what every key shows
  -- from then on as the specification by visible entries says, or is refused with an error and
  -- changes nothing.
  pub cache_step-refines :
      (c : CacheCall V) (now t : ℕ) (j : Text) (m : Map (V × ℕ))
      → now ≤ t
      → ((admits c ≡ true)
          × ((cache_step c now m).0 ≡ ok (reply c (shown now (key_of c) m)))
          × (shown t j (cache_step c now m).1 ≡ after c now t j (shown t j m)))
        ⊎ ((admits c ≡ false)
            × (is_ok (cache_step c now m).0 ≡ false)
            × ((cache_step c now m).1 ≡ m))
  unfolding cache_step
  cache_step-refines (gets key) now t j m h =
      checked_split (Meets (gets key) now t j m) (validate_key key) m (read_entry key now m)
        (inl (refl, ap ok (read_entry_reply key now m), shown-read_entry key j now t m h))
        (λ e. inr (refl, refl, refl))
  cache_step-refines (puts key v ttl) now t j m h =
      checked_split (Meets (puts key v ttl) now t j m) (validate_key key >> validate_ttl ttl) m _
        (inl (refl, refl, shown-insert t key j (v, now + ttl) m)) (λ e. inr (refl, refl, refl))
  cache_step-refines (invalidates key) now t j m h =
      checked_split (Meets (invalidates key) now t j m) (validate_key key) m _
        (inl (refl, refl, shown-remove t key j m)) (λ e. inr (refl, refl, refl))
  cache_step-refines (takes key) now t j m h =
      checked_split (Meets (takes key) now t j m) (validate_key key) m _
        (inl (refl, refl, shown-remove t key j m)) (λ e. inr (refl, refl, refl))
