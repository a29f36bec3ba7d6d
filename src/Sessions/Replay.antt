-- ===== src/Sessions/Replay.antt =====
-- src/auth/refresh.rs: a refresh token that is presented again after it was used.
use luxor.Base.{
  ℕ, ◌≡◌, refl, ap, subst, inl, inr, true, false, none, some, [], ◌∷◌, ◌++◌, map, Text, text_eq,
  ◌==◌, Bool-cases, ok, err, arith,
}
use luxor.Error.{unauthorized}
use luxor.Sessions.{
  SessionRecord, Table, is_none, session_by_hash, revoke_family, replace_row, mark_replaced,
}
use luxor.Sessions.Families.{active}
use luxor.Sessions.Outcome.{rotate_ok}
use luxor.Sessions.Rotation.{
  RefreshPolicy, RefreshGrant, Statement, Database, begins, selects, revokes, commits, Draw, commit,
  rotated_row, rotate_session, rotate_refresh_token,
}

-- Every statement succeeds.
abbrev pub IsUp : Database → Type 0
IsUp db = (s : Statement) → db.fault s ≡ none

active-revoke_family : (family now : ℕ) (t : Table) → active family (revoke_family family now t) ≡ 0
unfolding active revoke_family
active-revoke_family family now [] = refl
active-revoke_family family now (r ∷ t) = ground (arith, active-revoke_family family now t)

active-revoke_other :
    (family now other : ℕ) (t : Table)
    → (family == other) ≡ false
    → active other (revoke_family family now t) ≡ active other t
unfolding active revoke_family
active-revoke_other family now other [] h = refl
active-revoke_other family now other (r ∷ t) h =
    ground (arith, active-revoke_other family now other t h)

module _ (hash : Text → Text) (policy : RefreshPolicy) (db : Database) (draw : Draw) where
  rotate_revoked :
      (presented : Text) (t : Table) (s : SessionRecord)
      → IsUp db
      → session_by_hash (hash presented) t ≡ some s
      → is_none s.revoked_at ≡ false
      → rotate_refresh_token hash policy db draw presented t
        ≡ (err unauthorized, revoke_family s.family_id draw.database_now t)
  unfolding rotate_refresh_token rotate_session
  rotate_revoked presented t s up e h =
      rw (up begins, up selects, e, h, up revokes, commit, up commits)

  -- With a database that is up, presenting a token whose session is revoked is refused as
  -- unauthorized, leaves no active session in that family, and leaves every other family with as
  -- many active sessions as before.
  pub replay_revokes_family :
      (presented : Text) (t : Table) (s : SessionRecord)
      → IsUp db
      → session_by_hash (hash presented) t ≡ some s
      → is_none s.revoked_at ≡ false
      → let r = rotate_refresh_token hash policy db draw presented t in
        (r.0 ≡ err unauthorized)
        × (active s.family_id r.1 ≡ 0)
        × ((other : ℕ) → (s.family_id == other) ≡ false → active other r.1 ≡ active other t)
  replay_revokes_family presented t s up e h = rw (rotate_revoked presented t s up e h) (
    refl,
    active-revoke_family s.family_id draw.database_now t,
    λ other. active-revoke_other s.family_id draw.database_now other t,
  )

replace_row-hash :
    (id next now : ℕ) (r : SessionRecord) → (replace_row id next now r).token_hash ≡ r.token_hash
replace_row-hash id next now r = ground arith

by_hash-replace :
    (hash : Text) (id next now : ℕ) (t : Table) (s : SessionRecord)
    → session_by_hash hash t ≡ some s
    → session_by_hash hash (map (replace_row id next now) t) ≡ some (replace_row id next now s)
unfolding session_by_hash
by_hash-replace hash id next now [] s e = cc
by_hash-replace hash id next now (r ∷ t) s e =
    rw (replace_row-hash id next now r) (elim (Bool-cases (text_eq r.token_hash hash)) [
      | inl here ↦ rw here (ap (λ o. some (replace_row id next now o)) (same here))
      | inr there ↦ rw there (by_hash-replace hash id next now t s (rw there at e))
    ])
  where
    same : text_eq r.token_hash hash ≡ true → r ≡ s
    same here = cc (rw here at e)

by_hash-append :
    (hash : Text) (t u : Table) (s : SessionRecord)
    → session_by_hash hash t ≡ some s
    → session_by_hash hash (t ++ u) ≡ some s
unfolding session_by_hash
by_hash-append hash [] u s e = cc
by_hash-append hash (r ∷ t) u s e = ground (arith, by_hash-append hash t u s)

replaced_revoked :
    (id next now : ℕ) (s : SessionRecord)
    → s.id ≡ id
    → (is_none (replace_row id next now s).revoked_at ≡ false)
      × ((replace_row id next now s).family_id ≡ s.family_id)
replaced_revoked id next now s e = (ground arith, ground arith)

module _ (hash : Text → Text) (policy : RefreshPolicy) (db later : Database)
    (draw redraw : Draw) where
  -- If a token was rotated, presenting it again, with a database that is up, is refused as
  -- unauthorized and leaves every session of its family revoked, the one that replaced it included.
  pub rotate_twice :
      (presented : Text) (t u : Table) (grant : RefreshGrant)
      → IsUp later
      → rotate_refresh_token hash policy db draw presented t ≡ (ok grant, u)
      → let r = rotate_refresh_token hash policy later redraw presented u in
        (s : SessionRecord) × (session_by_hash (hash presented) t ≡ some s)
        × (r.0 ≡ err unauthorized)
        × (active s.family_id r.1 ≡ 0)
  unfolding mark_replaced
  rotate_twice presented t u grant up rotated =
      let (s, (found, live, _, _, _, _, left)) =
        rotate_ok hash policy db draw presented t grant u rotated in
      let row = rotated_row hash policy db draw s in
      let s' = replace_row s.id draw.session_id draw.database_now s in
      let again =
        by_hash-replace (hash presented) s.id draw.session_id draw.database_now (t ++ row ∷ []) s
          (by_hash-append (hash presented) t (row ∷ []) s found) in
      let e = replaced_revoked s.id draw.session_id draw.database_now s refl in
      let (refused, dead, _) =
        replay_revokes_family hash policy later redraw presented u s' up (rw left again) e.0 in
      (
        s,
        found,
        refused,
        subst (λ f. active f (rotate_refresh_token hash policy later redraw presented u).1 ≡ 0) e.1
            dead,
      )
