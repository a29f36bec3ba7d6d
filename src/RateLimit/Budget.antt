-- ===== src/RateLimit/Budget.antt =====
-- src/rate_limit.rs: the hits of one client in a window, among those of the others.
use luxor.Base.{
  ℕ, ◌+◌, ◌-◌, ◌≤◌, ◌<◌, ◌≡◌, refl, ◌∙◌, ap, inl, inr, true, false, ◌&&◌, Option, none, some, Text,
  List, [], ◌∷◌, leb, min, length, if◌then◌else◌, text_eq, text_eq→eq, text_eq_refl, Bool-cases,
  All, saturating_add_u32, u32_max, arith,
}
use luxor.Base.Map.{Map, lookup, insert, IsDistinct, insert-IsDistinct, lookup-insert_self, keep}
use luxor.RateLimit.{RateLimitQuota, MemoryWindow, window, decision, is_live, hit_within}
use luxor.RateLimit.Window.{
  live, hit_within-IsDistinct, live-hit_within, hit_within_live, hit_within_fresh,
}

-- A history: who is charged, and when. Every key has its policy's quota.
abbrev pub Hit : Type 0
Hit = Text × ℕ

module _ (capacity : ℕ) (quota_of : Text → RateLimitQuota) (key : Text) where
  -- The hits of `key` that are let through.
  pub admitted : Map MemoryWindow → List Hit → ℕ
  admitted m [] = 0
  admitted m ((k, now) ∷ es) =
      let r = hit_within capacity k (quota_of k) now m in
      (if text_eq k key && r.0.allowed then 1 else 0) + admitted r.1 es

  -- The hits of `key`.
  pub attempts : List Hit → ℕ
  attempts [] = 0
  attempts ((k, now) ∷ es) = (if text_eq k key then 1 else 0) + attempts es

  abbrev limit : ℕ
  limit = (quota_of key).max_requests

  lookup_of_live :
      (t : ℕ) (m : Map MemoryWindow) (w : MemoryWindow)
      → live t key m ≡ some w
      → lookup key m ≡ some w
  lookup_of_live t m w e = go (lookup key m) e
    where
      go : (o : Option MemoryWindow) → keep (is_live t) o ≡ some w → o ≡ some w
      go none e = cc
      go (some v) e = ground arith

  step_same :
      (m : Map MemoryWindow) (w : MemoryWindow) (k : Text) (now : ℕ)
      → text_eq k key ≡ true
      → lookup key m ≡ some w
      → now < w.resets_at
      → let r = hit_within capacity k (quota_of k) now m in
        (r.0.allowed ≡ leb (saturating_add_u32 w.count 1) limit)
        × (lookup key r.1 ≡ some (record w { count = saturating_add_u32 w.count 1 }))
  unfolding decision
  step_same m w k now same e h =
      rw (text_eq→eq k key same, hit_within_live capacity key (quota_of key) now m w e h)
        (refl, lookup-insert_self key _ m)

  step_other :
      (m : Map MemoryWindow) (w : MemoryWindow) (k : Text) (now : ℕ)
      → IsDistinct m
      → text_eq k key ≡ false
      → lookup key m ≡ some w
      → now < w.resets_at
      → lookup key (hit_within capacity k (quota_of k) now m).1 ≡ some w
  step_other m w k now d other e h = lookup_of_live now _ w (
      live-hit_within capacity k (quota_of k) now key now m d other (omega arith)
      ∙ ap (keep (is_live now)) e
      ∙ ground arith)

  -- Inside a window, exactly the hits that its budget has left are let through.
  pub admitted_exact :
      (es : List Hit) (m : Map MemoryWindow) (w : MemoryWindow)
      → limit < u32_max
      → IsDistinct m
      → lookup key m ≡ some w
      → All (λ e. e.1 < w.resets_at) es
      → admitted m es ≡ min (attempts es) (limit - w.count)
  unfolding admitted attempts
  admitted_exact [] m w small d e h = omega arith
  admitted_exact ((k, now) ∷ es) m w small d e (h, hs) =
      let r = hit_within capacity k (quota_of k) now m in
      let d' = hit_within-IsDistinct capacity k (quota_of k) now m d in
      elim (Bool-cases (text_eq k key)) [
        | inl same ↦
            let (passed, held) = step_same m w k now same e h in
            ground (
              arith,
              admitted_exact es r.1 (record w { count = saturating_add_u32 w.count 1 }) small d'
                  held hs,
            )
        | inr other ↦
            let held = step_other m w k now d other e h in
            ground (arith, admitted_exact es r.1 w small d' held hs)
      ]

  -- For a quota of at least 1 and below u32::MAX and a map with room and no live window of the
  -- client, a hit and the later hits of any clients before its window ends let through exactly as
  -- many of the client's hits as there are, or the quota if that is less.
  pub window-admitted :
      (m : Map MemoryWindow) (now : ℕ) (es : List Hit)
      → 1 ≤ limit
      → limit < u32_max
      → IsDistinct m
      → length m < capacity
      → live now key m ≡ none
      → All (λ e. e.1 < now + window (quota_of key)) es
      → admitted m ((key, now) ∷ es) ≡ min (attempts ((key, now) ∷ es)) limit
  unfolding admitted attempts decision
  window-admitted m now es pos small d room fresh before =
      let w : MemoryWindow = record { count = 1; resets_at = now + window (quota_of key) } in
      let m' = insert key w m in
      rw
        (
          hit_within_fresh capacity key (quota_of key) now m room fresh,
          text_eq_refl key,
          admitted_exact es m' w small (insert-IsDistinct key w m d) (lookup-insert_self key w m)
              before,
        )
        (ground arith)
