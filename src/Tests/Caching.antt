-- ===== src/Tests/Caching.antt =====
-- Inputs for the cache.
use luxor.Base.{
  ℕ, ◌≡◌, refl, true, false, none, some, [], ◌∷◌, Text, codes, ok, is_ok, ◌>>◌, arith, ◌⊎◌,
}
use luxor.Base.Map.{Map, lookup, insert, remove}
use luxor.Cache.{
  validate_key, validate_ttl, get_json, put_json, take_json, CacheCall, takes, cache_step,
  cache_run,
}
use luxor.Cache.View.{cache_step-refines, admits, reply, after, shown}

cache_runs : Unit {0}
unfolding cache_run cache_step lookup insert remove validate_key validate_ttl ◌>>◌
cache_runs = tt

abbrev ticket : Text
ticket = codes "realtime:ticket:5f3a"

abbrev stored : Map (ℕ × ℕ)
stored = (ticket, (42, 30000000000)) ∷ []

cache_tests :
    ((get_json ticket 5 stored).0 ≡ ok (some 42))
    × ((take_json ticket 30000000000 stored).0 ≡ ok none)
    × ((take_json ticket 5 stored).1 ≡ [])
    × (is_ok (get_json (codes "spaces are unsafe") 5 stored).0 ≡ false)
    × (is_ok (put_json ticket 1 900000 5 stored).0 ≡ false)
unfolding cache_runs
cache_tests = (refl, refl, refl, refl, refl)

abbrev take_ticket : CacheCall ℕ
take_ticket = takes ticket

cache_step-refines_example :
    ((admits (take_ticket) ≡ true)
      × ((cache_step take_ticket 5 stored).0 ≡ ok (reply take_ticket (shown 5 ticket stored)))
      × (shown 6 ticket (cache_step take_ticket 5 stored).1
          ≡ after take_ticket 5 6 ticket (shown 6 ticket stored)))
    ⊎ ((admits (take_ticket) ≡ false)
        × (is_ok (cache_step take_ticket 5 stored).0 ≡ false)
        × ((cache_step take_ticket 5 stored).1 ≡ stored))
cache_step-refines_example = cache_step-refines take_ticket 5 6 ticket stored (omega arith)
