-- ===== src/Tests/Storing.antt =====
-- Inputs for the cache in Redis: a server that keeps its values in a map, and flags as JSON.
use luxor.Base.{
  ℕ, ◌⊎◌, ◌==◌, leb, inl, inr, Bool-cases, ◌+◌, ◌≡◌, ◌≤◌, refl, Bool, true, false, Option, none,
  some, List, [], ◌∷◌, Text, codes, text_eq, if◌then◌else◌, Result, ok, err, arith, ◌>>◌,
}
use luxor.Base.Map.{Map, lookup, insert, remove, keep, lookup-insert, lookup-remove}
use luxor.Cache.{
  is_fresh, value_of, validate_key, validate_ttl, CacheCall, gets, puts, takes, invalidates,
  cache_step,
}
use luxor.Cache.Redis.{RedisStore, RedisCache}
use luxor.Cache.Encoding.{ends, IsStore, IsCodec}
use luxor.Cache.Interchange.{AreTimely, outcomes_memory, outcomes_redis, outcomes_redis-memory}

abbrev Values : Type 0
Values = Map (Text × ℕ)

-- An entry is there up to the millisecond in which it expires, that one included.
abbrev is_alive : ℕ → Text × ℕ → Bool
is_alive now e = leb now e.1

abbrev entry : Text → ℕ → Values → Option (Text × ℕ)
entry k now r = keep (is_alive now) (lookup k r)

abbrev server : RedisStore Values
server = record {
  get = λ k now r. (ok (value_of (entry k now r)), r);
  pset_ex = λ k x millis now r. (ok tt, insert k (x, now + millis) r);
  del = λ k now r. (ok 1, remove k r);
  get_del = λ k now r. (ok (value_of (entry k now r)), remove k r);
}

server-IsStore : IsStore server entry
server-IsStore = record {
  get_value = λ k now r. refl;
  get_entry = λ k j now r. refl;
  set_value = λ k x millis now r pos holds. refl;
  set_entry =
      λ k x j millis now r pos holds. rw (lookup-insert k j (x, now + millis) r) (ground arith);
  del_value = λ k now r. (1, refl);
  del_entry = λ k j now r. rw (lookup-remove k j r) (ground arith);
  take_value = λ k now r. refl;
  take_entry = λ k j now r. rw (lookup-remove k j r) (ground arith);
  passes = λ k now later r h. passed now later (lookup k r) h;
}
  where
    passed :
        (now later : ℕ) (e : Option (Text × ℕ))
        → now ≤ later
        → (keep (is_alive later) e ≡ keep (is_fresh later) (keep (is_alive now) e))
          ⊎ ((ends (keep (is_alive now) e) later ≡ true)
              × (keep (is_alive later) e ≡ keep (is_alive now) e))
    passed now later none h = inl refl
    passed now later (some (x, last)) h = elim (Bool-cases (later == last)) [
      | inl here ↦
          let on : leb now last ≡ true = ground arith in
          let still : leb later last ≡ true = ground arith in rw (on, still) (inr (here, refl))
      | inr other ↦ inl (ground arith)
    ]

abbrev to_string : Bool → Result Text Text
to_string true = ok (codes "true")
to_string false = ok (codes "false")

abbrev from_str : Text → Result Text Bool
from_str x =
    if text_eq x (codes "true")
    then ok true
    else if text_eq x (codes "false")
    then ok false
    else err (codes "expected value")

text_of : (v : Bool) → (x : Text) × (to_string v ≡ ok x)
text_of true = (codes "true", refl)
text_of false = (codes "false", refl)

read_text : (v : Bool) (x : Text) → to_string v ≡ ok x → from_str x ≡ ok v
unfolding text_eq
read_text true x h = let same : codes "true" ≡ x = cc in rw (← same) refl
read_text false x h = let same : codes "false" ≡ x = cc in rw (← same) refl

codec : IsCodec to_string from_str
codec = record { written = text_of; read_back = read_text }

abbrev store : RedisCache
store = record { namespace = codes "luxor:cache" }

abbrev calls : List (CacheCall Bool × ℕ)
calls =
    (puts (codes "a") true 10, 5)
    ∷ (gets (codes "a"), 7)
    ∷ (gets (codes "b c"), 8)
    ∷ (takes (codes "a"), 9)
    ∷ (puts (codes "b") false 10, 9)
    ∷ (gets (codes "b"), 18)
    ∷ (gets (codes "b"), 20)
    ∷ (invalidates (codes "b"), 20)
    ∷ []

outcomes_runs :
    outcomes_memory [] calls
    ≡ some none
      ∷ some (some true)
      ∷ none
      ∷ some (some true)
      ∷ some none
      ∷ some (some false)
      ∷ some none
      ∷ some none
      ∷ []
unfolding outcomes_memory cache_step lookup insert remove validate_key validate_ttl ◌>>◌
outcomes_runs = refl

timely : AreTimely 0 calls
unfolding text_eq
timely = (
  omega arith,
  omega arith,
  (refl, (refl, (refl, (refl, (refl, (refl, (refl, tt))))))),
  (
    omega arith,
    tt,
    (refl, (refl, (refl, (refl, (refl, (refl, tt)))))),
    (
      omega arith,
      tt,
      (refl, (refl, (refl, (refl, (refl, tt))))),
      (
        omega arith,
        tt,
        (refl, (refl, (refl, (refl, tt)))),
        (
          omega arith,
          omega arith,
          (refl, (refl, (refl, tt))),
          (
            omega arith,
            tt,
            (refl, (refl, tt)),
            (omega arith, tt, (refl, tt), (omega arith, tt, tt, tt)),
          ),
        ),
      ),
    ),
  ),
)

outcomes_redis-memory_example :
    outcomes_redis server to_string from_str codec entry server-IsStore store [] calls
    ≡ outcomes_memory [] calls
unfolding lookup
outcomes_redis-memory_example =
    outcomes_redis-memory server to_string from_str codec entry server-IsStore store 0 calls []
      timely (λ j. refl)
