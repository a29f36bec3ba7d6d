-- ===== src/RateLimit/Retry.antt =====
-- src/rate_limit.rs: what a refused client is told about coming back.
use luxor.Base.{
  ℕ, ◌+◌, ◌-◌, ◌*◌, ◌≤◌, ◌≡◌, ap, inl, inr, false, none, some, Text, Option-cases, arith,
  saturating_add_u32,
}
use luxor.Base.Map.{Map, lookup, insert, IsDistinct, lookup-insert_self}
use luxor.RateLimit.{
  RateLimitQuota, RateLimitDecision, MemoryWindow, window, ceil_seconds, nanos_per_second, decision,
  hit_within,
}
use luxor.RateLimit.Window.{
  live, live_some, hit_within-IsDistinct, hit_within_live, decision-hit_within_fresh,
}

ceil_seconds-ge : (d : ℕ) → d ≤ ceil_seconds d * nanos_per_second
unfolding ceil_seconds
ceil_seconds-ge d = ground arith

module _ (capacity : ℕ) (key : Text) (quota : RateLimitQuota) where
  -- A refusal comes from a live window of the key, and says when that window ends.
  refused_live :
      (m : Map MemoryWindow) (now : ℕ)
      → 1 ≤ quota.max_requests
      → IsDistinct m
      → (hit_within capacity key quota now m).0.allowed ≡ false
      → (w : MemoryWindow) × (live now key m ≡ some w)
  unfolding decision
  refused_live m now pos d refused = elim (Option-cases (live now key m)) [
    | inl none_live ↦
        let passed = decision-hit_within_fresh capacity key quota now m d none_live in
        absurd (ground (arith, ap (λ (r : RateLimitDecision). r.allowed) passed))
    | inr held ↦ held
  ]

  -- For a quota of at least 1, a client that was refused and comes back when at least the
  -- advertised seconds have passed is let through, with the decision of a first hit.
  pub retry_admitted :
      (m : Map MemoryWindow) (now later : ℕ)
      → 1 ≤ quota.max_requests
      → IsDistinct m
      → (hit_within capacity key quota now m).0.allowed ≡ false
      → now + (hit_within capacity key quota now m).0.retry_after_seconds * nanos_per_second ≤ later
      → (hit_within capacity key quota later (hit_within capacity key quota now m).1).0
        ≡ decision 1 quota (window quota)
  unfolding decision
  retry_admitted m now later pos d refused waited =
      let (w, shown) = refused_live m now pos d refused in
      let (held, alive) = live_some now (lookup key m) shown in
      let d' = hit_within-IsDistinct capacity key quota now m d in
      decision-hit_within_fresh capacity key quota later _ d'
        (over w (hit_within_live capacity key quota now m w held alive))
    where
      over :
          (w : MemoryWindow)
          → hit_within capacity key quota now m ≡ (
            decision (saturating_add_u32 w.count 1) quota (w.resets_at - now),
            insert key (record w { count = saturating_add_u32 w.count 1 }) m,
          )
          → live later key (hit_within capacity key quota now m).1 ≡ none
      over w e =
          let told : w.resets_at ≤ later =
            omega (arith, ceil_seconds-ge (w.resets_at - now), rw (e, decision) at waited) in
          rw (e, lookup-insert_self key (record w { count = saturating_add_u32 w.count 1 }) m)
            (ground arith)
