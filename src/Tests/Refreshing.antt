-- ===== src/Tests/Refreshing.antt =====
-- Inputs for the refresh tokens: a login, a refresh, and the old token again.
use luxor.Base.{
  ℕ, ◌≤◌, ◌≡◌, refl, true, false, not, Option, none, some, List, [], ◌∷◌, ◌++◌, filter, Text, codes,
  ok, err, arith,
}
use luxor.Error.{unauthorized}
use luxor.Sessions.{
  SessionRecord, Table, session_by_hash, insert_session, revoke_family, mark_replaced,
  delete_expired_session_families,
}
use luxor.Sessions.Rotation.{
  RefreshPolicy, RefreshGrant, Statement, Database, updates, Draw, issue_refresh_token,
  rotate_refresh_token,
}
use luxor.Sessions.Families.{active, Reach, start, next, issue, rotate, Reach-AtMostOne}
use luxor.Sessions.Replay.{replay_revokes_family, rotate_twice}
use luxor.Sessions.Outcome.{Rotates, rotate_ok, rotate_atomic}
use luxor.Sessions.Cleanup.{cleanup_transparent}
use luxor.Bootstrap.Pruning.{Tick, prune_sessions, is_pruned, prune_sessions-filter}

sessions : Unit {0}
unfolding issue_refresh_token rotate_refresh_token session_by_hash insert_session revoke_family
    mark_replaced delete_expired_session_families active
sessions = tt

abbrev hash : Text → Text
hash s = b'#' ∷ s

abbrev policy : RefreshPolicy
policy = record { token_ttl_seconds = 60; family_ttl_seconds = 90 }

abbrev up : Database
up = record { fault = λ s. none; commit_applied = false }

abbrev is_update : Statement → Option Text
is_update updates = some (codes "connection reset")
is_update _ = none

abbrev failing : Database
failing = record { fault = is_update; commit_applied = false }

abbrev draw : Text → ℕ → ℕ → Draw
draw token id now = record {
  token = token;
  session_id = id;
  family_id = 7;
  now = now;
  database_now = now;
}

abbrev logged_in : Table
logged_in =
    record {
      id = 1;
      user_id = 5;
      family_id = 7;
      token_hash = hash (codes "a");
      expires_at = 60000000;
      family_expires_at = 90000000;
      revoked_at = none;
      replaced_by = none;
      created_at = 0;
    }
    ∷ []

abbrev replaced_session : SessionRecord
replaced_session = record {
  id = 1;
  user_id = 5;
  family_id = 7;
  token_hash = hash (codes "a");
  expires_at = 60000000;
  family_expires_at = 90000000;
  revoked_at = some 40000000;
  replaced_by = some 2;
  created_at = 0;
}

abbrev refreshed : Table
refreshed =
    replaced_session
    ∷ record {
      id = 2;
      user_id = 5;
      family_id = 7;
      token_hash = hash (codes "b");
      expires_at = 90000000;
      family_expires_at = 90000000;
      revoked_at = none;
      replaced_by = none;
      created_at = 40000000;
    }
    ∷ []

abbrev grant : RefreshGrant
grant = record { token = codes "b"; user_id = 5; expires_at = 90000000 }

session_tests :
    ((issue_refresh_token hash policy up (draw (codes "a") 1 0) 5 []).1 ≡ logged_in)
    × (rotate_refresh_token hash policy up (draw (codes "b") 2 40000000) (codes "a") logged_in
        ≡ (ok grant, refreshed))
    × ((rotate_refresh_token hash policy up (draw (codes "c") 3 60000000) (codes "a") logged_in).0
        ≡ err unauthorized)
    × (active 7
          (rotate_refresh_token hash policy up
            (draw (codes "c") 3 41000000)
            (codes "a")
            refreshed).1
        ≡ 0)
unfolding sessions
session_tests = (refl, refl, refl, refl)

refreshed-Reach : Reach hash policy refreshed
unfolding sessions
refreshed-Reach =
    next (next start (issue up (draw (codes "a") 1 0) 5 [] refl))
      (rotate up (draw (codes "b") 2 40000000) (codes "a") logged_in)

Reach-AtMostOne_example : active 7 refreshed ≤ 1
Reach-AtMostOne_example = Reach-AtMostOne hash policy refreshed-Reach 7

replay_revokes_family_example :
    (rotate_refresh_token hash policy up (draw (codes "c") 3 41000000) (codes "a") refreshed).0
    ≡ err unauthorized
unfolding session_by_hash
replay_revokes_family_example =
    (replay_revokes_family hash policy up (draw (codes "c") 3 41000000) (codes "a") refreshed
      replaced_session (λ s. refl) refl refl).0

rotate_twice_example :
    let r =
      rotate_refresh_token hash policy up (draw (codes "c") 3 41000000) (codes "a") refreshed in
    (s : SessionRecord) × (session_by_hash (hash (codes "a")) logged_in ≡ some s)
    × (r.0 ≡ err unauthorized)
    × (active s.family_id r.1 ≡ 0)
unfolding sessions
rotate_twice_example =
    rotate_twice hash policy up up (draw (codes "b") 2 40000000) (draw (codes "c") 3 41000000)
      (codes "a") logged_in refreshed grant (λ s. refl) refl

rotate_ok_example :
    (s : SessionRecord) × Rotates hash policy up
      (draw (codes "b") 2 40000000)
      (codes "a")
      logged_in
      grant
      refreshed
      s
unfolding sessions
rotate_ok_example =
    rotate_ok hash policy up (draw (codes "b") 2 40000000) (codes "a") logged_in grant refreshed
      refl

rotate_atomic_example : ◌≡◌ {A = Table} logged_in logged_in
unfolding sessions
rotate_atomic_example =
    rotate_atomic hash policy failing (draw (codes "b") 2 40000000) (codes "a") logged_in logged_in
      (codes "connection reset") refl refl

cleanup_transparent_example :
    (rotate_refresh_token hash policy up
      (draw (codes "d") 4 95000000)
      (codes "b")
      (delete_expired_session_families 90000000 refreshed)).0
    ≡ (rotate_refresh_token hash policy up (draw (codes "d") 4 95000000) (codes "b") refreshed).0
unfolding sessions
cleanup_transparent_example =
    cleanup_transparent hash policy up (draw (codes "d") 4 95000000) (codes "b") refreshed 90000000
      (λ s. refl) (refl, (refl, tt)) (refl, refl, (refl, refl, tt)) (omega arith)

-- A tick before the family of the session ends, one at which the database is down, one behind it, and
-- the tick at which the shutdown is asked for.
abbrev ticks : List Tick
ticks =
    record { requested = false; now = 0; deletes = true }
    ∷ record { requested = false; now = 99999999; deletes = false }
    ∷ record { requested = false; now = 99999999; deletes = true }
    ∷ []

abbrev last_tick : Tick
last_tick = record { requested = true; now = 99999999; deletes = true }

prune_sessions-filter_example :
    prune_sessions (ticks ++ last_tick ∷ []) logged_in
    ≡ filter (λ r. not (is_pruned ticks r.family_expires_at)) logged_in
prune_sessions-filter_example =
    prune_sessions-filter ticks last_tick [] logged_in (refl, (refl, (refl, tt))) refl
