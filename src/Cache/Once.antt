-- ===== src/Cache/Once.antt =====
-- src/cache.rs: the readers of a value that is taken.
use luxor.Base.{
  ℕ, ◌+◌, ◌≡◌, refl, ◌∙◌, inl, inr, true, false, Option, none, List, [], ◌∷◌, Text, is_ok, text_eq,
  text_eq_refl, Bool-cases, Option-cases, Result, ok, err, ◌>>◌, All, arith,
}
use luxor.Base.Map.{Map, lookup, remove, lookup-insert_ne, lookup-remove}
use luxor.Error.{AppError}
use luxor.Cache.{
  validate_key, validate_ttl, is_fresh, checked, read_entry, take_json, CacheCall, gets, puts,
  invalidates, takes, cache_step, cache_run,
}

module _ {V : Type 0} (key : Text) where
  -- The call stores nothing under the key.
  abbrev pub StoresElsewhere : CacheCall V × ℕ → Type 0
  StoresElsewhere (puts k v ttl, now) = text_eq k key ≡ false
  StoresElsewhere _ = Unit

  absent_remove :
      (k : Text) (m : Map (V × ℕ)) → lookup key m ≡ none → lookup key (remove k m) ≡ none
  absent_remove k m h = rw (lookup-remove k key m, h) (ground arith)

  absent_checked :
      (r : Result AppError (Unit {0})) (m : Map (V × ℕ)) (p : Option V × Map (V × ℕ))
      → lookup key m ≡ none
      → lookup key p.1 ≡ none
      → lookup key (checked r m p).1 ≡ none
  absent_checked (ok u) m p h k = k
  absent_checked (err e) m p h k = h

  absent_read :
      (k : Text) (now : ℕ) (m : Map (V × ℕ))
      → lookup key m ≡ none
      → lookup key (read_entry k now m).1 ≡ none
  unfolding read_entry
  absent_read k now m h = elim (Option-cases (lookup k m)) [
    | inl e ↦ rw (e, read_entry) h
    | inr (v, e) ↦ elim (Bool-cases (is_fresh now v)) [
      | inl fresh ↦ rw (e, read_entry, fresh) h
      | inr stale ↦ rw (e, read_entry, stale) (absent_remove k m h)
    ]
  ]

  absent_step :
      (c : CacheCall V) (now : ℕ) (m : Map (V × ℕ))
      → StoresElsewhere (c, now)
      → lookup key m ≡ none
      → lookup key (cache_step c now m).1 ≡ none
  unfolding cache_step
  absent_step (gets k) now m s h = absent_checked (validate_key k) m _ h (absent_read k now m h)
  absent_step (puts k v ttl) now m s h =
      absent_checked (validate_key k >> validate_ttl ttl) m _ h
        (lookup-insert_ne k key (v, now + ttl) m s ∙ h)
  absent_step (invalidates k) now m s h =
      absent_checked (validate_key k) m _ h (absent_remove k m h)
  absent_step (takes k) now m s h = absent_checked (validate_key k) m _ h (absent_remove k m h)

  absent_run :
      (cs : List (CacheCall V × ℕ)) (m : Map (V × ℕ))
      → All StoresElsewhere cs
      → lookup key m ≡ none
      → lookup key (cache_run cs m) ≡ none
  unfolding cache_run
  absent_run [] m s h = h
  absent_run ((c, now) ∷ cs) m (s, ss) h =
      absent_run cs (cache_step c now m).1 ss (absent_step c now m s h)

  take_absent :
      (now : ℕ) (m : Map (V × ℕ))
      → is_ok (validate_key key) ≡ true
      → lookup key m ≡ none
      → (take_json key now m).0 ≡ ok none
  unfolding take_json
  take_absent now m valid h = rw h (go (validate_key key) valid)
    where
      go :
          (r : Result AppError (Unit {0}))
          → is_ok r ≡ true
          → (checked r m (none, remove key m)).0 ≡ ok none
      go (ok u) v = refl
      go (err e) v = cc

  absent_taken :
      (now : ℕ) (m : Map (V × ℕ))
      → is_ok (validate_key key) ≡ true
      → lookup key (take_json key now m).1 ≡ none
  unfolding take_json
  absent_taken now m valid = go (validate_key key) _ valid
    where
      go :
          (r : Result AppError (Unit {0})) (o : Option V)
          → is_ok r ≡ true
          → lookup key (checked r m (o, remove key m)).1 ≡ none
      go (ok u) o v = rw (lookup-remove key key m, text_eq_refl key)
      go (err e) o v = cc

  -- After a valid key was taken, and through any calls that store nothing under it, taking it again
  -- finds nothing.
  pub take_once :
      (now later : ℕ) (m : Map (V × ℕ)) (cs : List (CacheCall V × ℕ))
      → is_ok (validate_key key) ≡ true
      → All StoresElsewhere cs
      → (take_json key later (cache_run cs (take_json key now m).1)).0 ≡ ok none
  take_once now later m cs valid s =
      take_absent later _ valid (absent_run cs _ s (absent_taken now m valid))
