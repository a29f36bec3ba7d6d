-- ===== src/Bootstrap/Pruning.antt =====
-- src/bootstrap.rs: the task that prunes the sessions. A turn of its loop is what `select!` finds:
-- the signal, the time of the tick, and whether the statement takes effect. What it answers is only
-- logged, so a statement whose answer is lost is one that takes effect.
use luxor.Base.{
  ℕ, ◌≡◌, refl, sym, ap, ◌∙◌, Bool, true, false, not, ◌&&◌, ◌||◌, List, [], ◌∷◌, ◌++◌, any, filter,
  leb, All, if◌then◌else◌, Bool-cases, inl, inr,
}
use luxor.Sessions.{Table, delete_expired_session_families}

-- In seconds.
abbrev pub session_prune_interval : ℕ
session_prune_interval = 3600

pub record Tick : Type 0 where
  pub requested : Bool
  pub now : ℕ
  pub deletes : Bool

abbrev prune : Tick → Table → Table
prune tick table = if tick.deletes then delete_expired_session_families tick.now table else table

unfoldable pub prune_sessions : List Tick → Table → Table
prune_sessions [] table = table
prune_sessions (tick ∷ ticks) table =
    let rest = prune_sessions ticks (prune tick table) in if tick.requested then table else rest

-- A session is pruned by a tick at which its family has expired and the statement takes effect.
unfoldable pub is_pruned : List Tick → ℕ → Bool
is_pruned ticks expires_at = any (λ tick. tick.deletes && leb expires_at tick.now) ticks

filter-filter :
    {A : Type 0} (p q : A → Bool) (xs : List A)
    → filter p (filter q xs) ≡ filter (λ x. q x && p x) xs
unfolding filter
filter-filter p q [] = refl
filter-filter p q (x ∷ xs) = elim (Bool-cases (q x)) [
  | inl kept ↦ rw kept (rw (filter-filter p q xs) refl)
  | inr gone ↦ rw gone (filter-filter p q xs)
]

filter_congr :
    {A : Type 0} (p q : A → Bool) (xs : List A) → ((x : A) → p x ≡ q x) → filter p xs ≡ filter q xs
unfolding filter
filter_congr p q [] h = refl
filter_congr p q (x ∷ xs) h = rw (h x, filter_congr p q xs h) refl

filter_all : {A : Type 0} (xs : List A) → filter (λ x. true) xs ≡ xs
unfolding filter
filter_all [] = refl
filter_all (x ∷ xs) = ap (x ∷◌) (filter_all xs)

not_or : (a b : Bool) → not (a || b) ≡ (not a && not b)
not_or true b = refl
not_or false b = refl

-- Until the shutdown is asked for, the loop leaves, in their order, the sessions that no tick whose
-- statement takes effect has found expired, and no others; a tick whose statement does not only leaves
-- them to a later one.
pub prune_sessions-filter :
    (ticks : List Tick) (stop : Tick) (more : List Tick) (table : Table)
    → All (λ tick. tick.requested ≡ false) ticks
    → stop.requested ≡ true
    → prune_sessions (ticks ++ stop ∷ more) table
      ≡ filter (λ r. not (is_pruned ticks r.family_expires_at)) table
unfolding prune_sessions is_pruned delete_expired_session_families
prune_sessions-filter [] stop more table h s = rw s (sym (filter_all table))
prune_sessions-filter (tick ∷ ticks) stop more table (go, h) s = elim (Bool-cases tick.deletes) [
  | inl deletes ↦
      rw (go, deletes)
        (prune_sessions-filter ticks stop more _ h s
          ∙ filter-filter _ _ table
          ∙ filter_congr _ _ table (λ r.
            sym (not_or (leb r.family_expires_at tick.now) (is_pruned ticks r.family_expires_at))))
  | inr silent ↦ rw (go, silent) (prune_sessions-filter ticks stop more table h s)
]
