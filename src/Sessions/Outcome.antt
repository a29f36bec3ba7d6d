-- ===== src/Sessions/Outcome.antt =====
-- src/auth/refresh.rs: what a rotation returns and stores.
use luxor.Base.{
  ◌≤◌, ◌<◌, ◌≡◌, refl, false, Option, none, some, [], ◌∷◌, ◌++◌, Text, Result, ok, err, arith,
}
use luxor.Error.{AppError, database}
use luxor.Sessions.{SessionRecord, Table, session_by_hash, insert_session, mark_replaced}
use luxor.Sessions.Cases.{inserted}
use luxor.Sessions.Rotation.{
  RefreshPolicy, RefreshGrant, Database, Draw, rotated_row, rotated_grant, rotated_expiry,
  rotate_session, rotate_refresh_token,
}

module _ (hash : Text → Text) (policy : RefreshPolicy) (db : Database) (draw : Draw) where
  -- The session that a successful rotation replaces, and what it leaves.
  abbrev pub Rotates : Text → Table → RefreshGrant → Table → SessionRecord → Type 0
  Rotates presented t grant u s =
      (session_by_hash (hash presented) t ≡ some s)
      × (s.revoked_at ≡ none)
      × (draw.now < s.expires_at)
      × (draw.now < s.family_expires_at)
      × (grant ≡ rotated_grant hash policy db draw s)
      × (grant.expires_at ≤ s.family_expires_at)
      × (u
          ≡ mark_replaced s.id draw.session_id draw.database_now
              (t ++ rotated_row hash policy db draw s ∷ []))

  row_ok :
      (s : SessionRecord) (t : Table) (i : Result AppError Table) {grant : RefreshGrant} {u : Table}
      → insert_session (rotated_row hash policy db draw s) t ≡ i
      → rotate_session hash policy db draw (some s) t ≡ (ok grant, u)
      → (s.revoked_at ≡ none)
        × (draw.now < s.expires_at)
        × (draw.now < s.family_expires_at)
        × (grant ≡ rotated_grant hash policy db draw s)
        × (u
            ≡ mark_replaced s.id draw.session_id draw.database_now
                (t ++ rotated_row hash policy db draw s ∷ []))
  unfolding rotate_session
  row_ok s t (err e) i h = absurd (ground arith)
  row_ok s t (ok t') i h =
      let left = inserted (rotated_row hash policy db draw s) t i in
      (ground arith, ground arith, ground arith, ground arith, ground (arith, left))

  session_ok :
      (presented : Text) (t : Table) (o : Option SessionRecord) {grant : RefreshGrant} {u : Table}
      → session_by_hash (hash presented) t ≡ o
      → rotate_session hash policy db draw o t ≡ (ok grant, u)
      → (s : SessionRecord) × Rotates presented t grant u s
  unfolding rotate_session rotated_expiry
  session_ok presented t none e h = absurd (ground arith)
  session_ok presented t (some s) e h =
      let (live, fresh, alive, granted, left) = row_ok s t _ refl h in
      (s, (e, live, fresh, alive, granted, ground arith, left))

  -- If a rotation succeeds, the presented token's session was not revoked, and neither it nor its
  -- family had expired; the grant is for that session's user and expires no later than the family,
  -- and the table is the old one with the new session added and the old one marked replaced.
  pub rotate_ok :
      (presented : Text) (t : Table) (grant : RefreshGrant) (u : Table)
      → rotate_refresh_token hash policy db draw presented t ≡ (ok grant, u)
      → (s : SessionRecord) × Rotates presented t grant u s
  unfolding rotate_refresh_token
  rotate_ok presented t grant u h =
      session_ok presented t (session_by_hash (hash presented) t) refl (ground arith)

  -- Where a failed commit is never applied, a rotation that ends in a database error leaves the
  -- table as it was.
  pub rotate_atomic :
      (presented : Text) (t u : Table) (d : Text)
      → db.commit_applied ≡ false
      → rotate_refresh_token hash policy db draw presented t ≡ (err (database d), u)
      → u ≡ t
  unfolding rotate_refresh_token rotate_session
  rotate_atomic presented t u d kept h = ground arith
