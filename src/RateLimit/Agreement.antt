-- ===== src/RateLimit/Agreement.antt =====
-- src/rate_limit.rs: a window in memory next to a counter in Redis, as time passes.
use luxor.Base.{
  ℕ, ◌+◌, ◌*◌, ◌≤◌, All, ◌&&◌, ◌==◌, ◌≡◌, refl, inl, inr, true, false, Option, none, some, List, [],
  ◌∷◌, Text, ltb, text_eq, Bool-cases, arith,
}
use luxor.Base.Map.{keep}
use luxor.RateLimit.{RateLimitQuota, MemoryWindow, is_live}
use luxor.RateLimit.Budget.{Hit}
use luxor.RateLimit.Script.{Entry, until, ends, i64_max}
use luxor.RateLimit.Redis.{nanos_per_milli, clamp_u32}

-- No hit is earlier than one before it, none starts a window that Redis cannot hold, and none comes
-- in the very millisecond in which a window that an earlier hit of its key may have started ends.
abbrev pub AreTimely : (Text → RateLimitQuota) → ℕ → List Hit → Type 0
AreTimely quota_of from [] = Unit
AreTimely quota_of from ((key, now) ∷ hits) =
    (from ≤ now)
    × (now + (quota_of key).window_seconds * 1000 ≤ i64_max)
    × All
        (λ hit. (text_eq key hit.0 && hit.1 == now + (quota_of key).window_seconds * 1000) ≡ false)
        hits
    × AreTimely quota_of now hits

-- A window and a counter that say the same; where there is no window, a counter may be in its last
-- millisecond.
abbrev pub Agrees : ℕ → Option MemoryWindow → Entry → Type 0
Agrees now none none = Unit
Agrees now none (some (n, some end)) = end ≡ now
Agrees now (some w) (some (n, some end)) =
    (1 ≤ n) × (w.count ≡ clamp_u32 n) × (w.resets_at ≡ end * nanos_per_milli)
Agrees now _ _ = ⊥

pub Agrees-until :
    (now later : ℕ) (o : Option MemoryWindow) (e : Entry)
    → now ≤ later
    → Agrees now o e
    → Agrees later (keep (is_live (later * nanos_per_milli)) o) (until later e)
Agrees-until now later none none h a = tt
Agrees-until now later none (some (n, none)) h a = elim a [ ]
Agrees-until now later none (some (n, some end)) h a =
    let gone : ltb later end ≡ false = ground arith in rw gone tt
Agrees-until now later (some w) none h a = elim a [ ]
Agrees-until now later (some w) (some (n, none)) h a = elim a [ ]
Agrees-until now later (some w) (some (n, some end)) h (pos, count, resets) =
    elim (Bool-cases (ltb later end)) [
      | inl on ↦
          let still : ltb (later * nanos_per_milli) w.resets_at ≡ true = ground arith in
          rw (on, still) (pos, count, resets)
      | inr over ↦
          let gone : ltb (later * nanos_per_milli) w.resets_at ≡ false = ground arith in
          rw (over, gone) tt
    ]

pub Agrees-kept :
    (now later : ℕ) (o : Option MemoryWindow) (e : Entry)
    → ends e later ≡ true
    → Agrees now o e
    → Agrees later (keep (is_live (later * nanos_per_milli)) o) e
Agrees-kept now later o none last a = cc
Agrees-kept now later o (some (n, none)) last a = cc
Agrees-kept now later none (some (n, some end)) last a = ground arith
Agrees-kept now later (some w) (some (n, some end)) last (pos, count, resets) =
    let gone : ltb (later * nanos_per_milli) w.resets_at ≡ false = ground arith in
    rw gone (ground arith)

pub ends-until : (later t : ℕ) (e : Entry) → ends e t ≡ false → ends (until later e) t ≡ false
ends-until later t none h = refl
ends-until later t (some (n, none)) h = refl
ends-until later t (some (n, some end)) h = elim (Bool-cases (ltb later end)) [
  | inl on ↦ rw on h
  | inr over ↦ rw over refl
]
