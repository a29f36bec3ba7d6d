-- ===== src/RateLimit/Window.antt =====
-- src/rate_limit.rs: what one hit does to the windows, that of its key and the others.
use luxor.Base.{
  ℕ, suc, ◌+◌, ◌-◌, ◌≤◌, ◌<◌, ◌≡◌, refl, ◌∙◌, ap, ◌⊎◌, inl, inr, true, false, not, ◌&&◌, Option,
  none, some, Text, leb, length, saturating_add_u32, text_eq, Bool-cases, arith,
}
use luxor.Base.Map.{
  Map, lookup, insert, retain, contains_key, keep, IsDistinct, insert-IsDistinct, retain-IsDistinct,
  lookup-insert_ne, lookup-retain, length-insert_le, length-insert_of_contains, length-retain-le,
}
use luxor.RateLimit.{
  RateLimitQuota, RateLimitDecision, MemoryWindow, window, entry_after, decision, track, is_live,
  hit_within,
}

-- Two maps show the same live windows from `t` on.
abbrev pub live : ℕ → Text → Map MemoryWindow → Option MemoryWindow
live t j m = keep (is_live t) (lookup j m)

pub keep-keep :
    (now t : ℕ) (o : Option MemoryWindow)
    → now ≤ t
    → keep (is_live t) (keep (is_live now) o) ≡ keep (is_live t) o
keep-keep now t none h = refl
keep-keep now t (some w) h = ground arith

pub live_some :
    (t : ℕ) (o : Option MemoryWindow) {w : MemoryWindow}
    → keep (is_live t) o ≡ some w
    → (o ≡ some w) × (t < w.resets_at)
live_some t none e = cc
live_some t (some v) e = ground arith

-- What bounds the memory of the limiter, and keeps one window to a key.
pub record IsValid (capacity : ℕ) (m : Map MemoryWindow) : Type 0 where
  pub bounded : length m ≤ capacity
  pub distinct : IsDistinct m

module _ (capacity : ℕ) (key : Text) (quota : RateLimitQuota) (now : ℕ) where
  -- A hit either tracks the key, in the windows or in the live ones, or lets it pass untracked.
  hit_cases {κ} :
      (P : RateLimitDecision × Map MemoryWindow → Type κ) (m : Map MemoryWindow)
      → ((n : Map MemoryWindow)
          → (n ≡ m) ⊎ (n ≡ retain (is_live now) m)
          → (contains_key key n ≡ true) ⊎ (suc (length n) ≤ capacity)
          → P (track key quota now n))
      → (contains_key key m ≡ false → P (decision 1 quota (window quota), retain (is_live now) m))
      → P (hit_within capacity key quota now m)
  unfolding hit_within
  hit_cases P m tracked untracked =
      elim (Bool-cases (leb capacity (length m) && not (contains_key key m))) [
        | inl full ↦ rw full (elim (Bool-cases (leb capacity (length (retain (is_live now) m)))) [
          | inl still ↦ rw still (untracked (ground arith))
          | inr room ↦ rw room (tracked _ (inr refl) (inr (ground arith)))
        ])
        | inr room ↦ rw room (tracked m (inl refl) (ground arith))
      ]

  track-IsValid :
      (m : Map MemoryWindow)
      → (contains_key key m ≡ true) ⊎ (suc (length m) ≤ capacity)
      → IsValid capacity m
      → IsValid capacity (track key quota now m).1
  unfolding track
  track-IsValid m room v =
      let w = entry_after now (now + window quota) (lookup key m) in
      record {
        bounded = ground (arith, length-insert_le key w m, length-insert_of_contains key w m);
        distinct = insert-IsDistinct key w m v.distinct;
      }

  swept-IsValid :
      (m n : Map MemoryWindow)
      → (n ≡ m) ⊎ (n ≡ retain (is_live now) m)
      → IsValid capacity m
      → IsValid capacity n
  swept-IsValid m n (inl e) v = rw e v
  swept-IsValid m n (inr e) v = rw e (record {
    bounded = omega (arith, length-retain-le (is_live now) m);
    distinct = retain-IsDistinct (is_live now) m v.distinct;
  })

  -- A hit keeps the number of tracked windows within the capacity, and one window to a key.
  pub hit_within-IsValid :
      (m : Map MemoryWindow)
      → IsValid capacity m
      → IsValid capacity (hit_within capacity key quota now m).1
  hit_within-IsValid m v =
      hit_cases (λ r. IsValid capacity r.1) m
        (λ n e room. track-IsValid n room (swept-IsValid m n e v))
        (λ _. swept-IsValid m _ (inr refl) v)

  pub hit_within-IsDistinct :
      (m : Map MemoryWindow) → IsDistinct m → IsDistinct (hit_within capacity key quota now m).1
  unfolding track
  hit_within-IsDistinct m d =
      hit_cases (λ r. IsDistinct r.1) m (λ n e _. insert-IsDistinct key _ n (swept-IsDistinct n e))
        (λ _. swept-IsDistinct _ (inr refl))
    where
      swept-IsDistinct :
          (n : Map MemoryWindow) → (n ≡ m) ⊎ (n ≡ retain (is_live now) m) → IsDistinct n
      swept-IsDistinct n (inl e) = rw e d
      swept-IsDistinct n (inr e) = rw e (retain-IsDistinct (is_live now) m d)

  live-swept :
      (j : Text) (t : ℕ) (m n : Map MemoryWindow)
      → (n ≡ m) ⊎ (n ≡ retain (is_live now) m)
      → now ≤ t
      → IsDistinct m
      → live t j n ≡ live t j m
  live-swept j t m n (inl e) h d = rw e
  live-swept j t m n (inr e) h d =
      rw (e, lookup-retain (is_live now) j m d) (keep-keep now t (lookup j m) h)

  -- In a map with one window to a key, a hit leaves the live window of every other key as it was,
  -- at its time and later, whether or not expired windows are swept.
  pub live-hit_within :
      (j : Text) (t : ℕ) (m : Map MemoryWindow)
      → IsDistinct m
      → text_eq key j ≡ false
      → now ≤ t
      → live t j (hit_within capacity key quota now m).1 ≡ live t j m
  unfolding track
  live-hit_within j t m d other h =
      hit_cases (λ r. live t j r.1 ≡ live t j m) m
        (λ n e room.
          ap (keep (is_live t)) (lookup-insert_ne key j _ n other) ∙ live-swept j t m n e h d)
        (λ _. live-swept j t m _ (inr refl) h d)

  -- A hit on a live window counts in that window.
  pub hit_within_live :
      (m : Map MemoryWindow) (w : MemoryWindow)
      → lookup key m ≡ some w
      → now < w.resets_at
      → hit_within capacity key quota now m ≡ (
        decision (saturating_add_u32 w.count 1) quota (w.resets_at - now),
        insert key (record w { count = saturating_add_u32 w.count 1 }) m,
      )
  unfolding hit_within track contains_key entry_after
  hit_within_live m w e h = ground arith

  entry_after_fresh :
      (resets_at : ℕ) (o : Option MemoryWindow)
      → keep (is_live now) o ≡ none
      → entry_after now resets_at o ≡ record { count = 1; resets_at = resets_at }
  unfolding entry_after
  entry_after_fresh resets_at none e = refl
  entry_after_fresh resets_at (some w) e = ground arith

  track_fresh :
      (m : Map MemoryWindow)
      → live now key m ≡ none
      → track key quota now m ≡ (
        decision 1 quota (window quota),
        insert key (record { count = 1; resets_at = now + window quota }) m,
      )
  unfolding track
  track_fresh m e =
      let d : now + window quota - now ≡ window quota = omega arith in
      rw (entry_after_fresh (now + window quota) (lookup key m) e, d)

  -- Without a live window, a hit that finds room opens one, which ends a whole window later.
  pub hit_within_fresh :
      (m : Map MemoryWindow)
      → length m < capacity
      → live now key m ≡ none
      → hit_within capacity key quota now m ≡ (
        decision 1 quota (window quota),
        insert key (record { count = 1; resets_at = now + window quota }) m,
      )
  unfolding hit_within
  hit_within_fresh m room e =
      let full : leb capacity (length m) ≡ false = ground arith in rw full (track_fresh m e)

  -- Without a live window, every hit is Answered as the first of a window.
  pub decision-hit_within_fresh :
      (m : Map MemoryWindow)
      → IsDistinct m
      → live now key m ≡ none
      → (hit_within capacity key quota now m).0 ≡ decision 1 quota (window quota)
  decision-hit_within_fresh m d e =
      hit_cases (λ r. r.0 ≡ decision 1 quota (window quota)) m
        (λ n f _.
          ap (λ (r : RateLimitDecision × Map MemoryWindow). r.0)
            (track_fresh n (live-swept key now m n f (omega arith) d ∙ e)))
        (λ _. refl)
