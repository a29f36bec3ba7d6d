-- ===== src/Realtime/Budget.antt =====
-- src/realtime.rs: the messages that a connection may publish in its window.
use luxor.Base.{
  ℕ, suc, ◌+◌, ◌-◌, ◌≤◌, ◌<◌, ◌≡◌, List, [], ◌∷◌, min, length, All, if◌then◌else◌, arith,
}
use luxor.Realtime.{SendQuota, allow, message_window, message_quota}

-- The publishes that are let through, at the times of the attempts.
pub accepted : SendQuota → List ℕ → ℕ
accepted q [] = 0
accepted q (now ∷ ts) = (if (allow now q).0 then 1 else 0) + accepted (allow now q).1 ts

-- Of attempts that all come before the window ends, as many are let through as there are, or as the
-- budget has left if that is less.
pub accepted_exact :
    (q : SendQuota) (ts : List ℕ)
    → All (λ t. t < q.window_started + message_window) ts
    → accepted q ts ≡ min (length ts) (message_quota - q.used)
unfolding accepted allow
accepted_exact q [] h = omega arith
accepted_exact q (now ∷ ts) (h, hs) =
    ground (arith, accepted_exact q ts hs, accepted_exact (record q { used = q.used + 1 }) ts hs)

-- The first attempt after a window opens a new one, with the whole budget.
pub accepted_refilled :
    (q : SendQuota) (now : ℕ) (ts : List ℕ)
    → q.window_started + message_window ≤ now
    → All (λ t. t < now + message_window) ts
    → accepted q (now ∷ ts) ≡ min (suc (length ts)) message_quota
unfolding accepted allow
accepted_refilled q now ts h hs =
    ground (arith, accepted_exact (record { window_started = now; used = 1 }) ts hs)
