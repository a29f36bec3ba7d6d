-- ===== src/Sessions/Rotation.antt =====
-- src/auth/refresh.rs: issuing and rotating refresh tokens. Hashing is the SHA-256 library's; the
-- random token, the identifiers and both clocks are arguments. A statement may fail, and a commit
-- that fails may have been applied; a transaction that is not committed leaves no trace.
use luxor.Base.{
  ℕ, ◌+◌, ◌*◌, Bool, not, ◌||◌, Option, none, some, Text, min, leb, if◌then◌else◌, Result, ok, err,
}
use luxor.Error.{AppError, unauthorized, database}
use luxor.Sessions.{
  SessionRecord, Table, is_none, session_by_hash, insert_session, revoke_family, mark_replaced,
}

abbrev pub seconds : ℕ → ℕ
seconds n = n * 1000000

pub record RefreshPolicy : Type 0 where
  pub token_ttl_seconds : ℕ
  pub family_ttl_seconds : ℕ

pub record RefreshGrant : Type 0 where
  pub token : Text
  pub user_id : ℕ
  pub expires_at : ℕ

pub data Statement : Type 0 where
  begins selects revokes inserts updates commits rolls_back : Statement

-- How the database answers: the error of each statement that fails.
pub record Database : Type 0 where
  pub fault : Statement → Option Text
  pub commit_applied : Bool

-- What a call draws: the token, the identifiers, and the time.
pub record Draw : Type 0 where
  pub token : Text
  pub session_id : ℕ
  pub family_id : ℕ
  pub now : ℕ
  pub database_now : ℕ

-- `?` on a statement: the transaction is dropped, so the table is as it was.
abbrev pub attempt {ℓ} :
    {A : Type 0} {T : Type ℓ} → Option Text → T → Result AppError A × T → Result AppError A × T
attempt none t r = r
attempt (some d) t r = (err (database d), t)

abbrev pub commit :
    {A : Type 0} → Database → Table → Table → Result AppError A → Result AppError A × Table
commit db before after r = elim (db.fault commits) [
  | none ↦ (r, after)
  | some d ↦ (err (database d), if db.commit_applied then after else before)
]

unfoldable pub rotated_expiry : ℕ → ℕ → ℕ → ℕ
rotated_expiry now token_ttl_seconds family_expires_at =
    min (now + seconds token_ttl_seconds) family_expires_at

module _ (hash : Text → Text) (policy : RefreshPolicy) (db : Database) (draw : Draw) where
  abbrev pub issued_row : ℕ → SessionRecord
  issued_row user = record {
    id = draw.session_id;
    user_id = user;
    family_id = draw.family_id;
    token_hash = hash draw.token;
    expires_at = draw.now + seconds policy.token_ttl_seconds;
    family_expires_at = draw.now + seconds policy.family_ttl_seconds;
    revoked_at = none;
    replaced_by = none;
    created_at = draw.database_now;
  }

  abbrev stored :
      RefreshGrant → Table → Result AppError Table → Result AppError RefreshGrant × Table
  stored grant t (ok t') = (ok grant, t')
  stored grant t (err e) = (err e, t)

  -- `create_session` draws the session's identifier.
  unfoldable pub issue_refresh_token : ℕ → Table → Result AppError RefreshGrant × Table
  unfolding insert_session
  issue_refresh_token user t = attempt (db.fault inserts) t (
      stored
        (record {
          token = draw.token;
          user_id = user;
          expires_at = draw.now + seconds policy.token_ttl_seconds;
        })
        t (insert_session (issued_row user) t))

  abbrev pub rotated_row : SessionRecord → SessionRecord
  rotated_row s = record {
    id = draw.session_id;
    user_id = s.user_id;
    family_id = s.family_id;
    token_hash = hash draw.token;
    expires_at = rotated_expiry draw.now policy.token_ttl_seconds s.family_expires_at;
    family_expires_at = s.family_expires_at;
    revoked_at = none;
    replaced_by = none;
    created_at = draw.database_now;
  }

  abbrev pub rotated_grant : SessionRecord → RefreshGrant
  rotated_grant s = record {
    token = draw.token;
    user_id = s.user_id;
    expires_at = rotated_expiry draw.now policy.token_ttl_seconds s.family_expires_at;
  }

  abbrev replaced :
      SessionRecord → Table → Result AppError Table → Result AppError RefreshGrant × Table
  replaced s t (err e) = (err e, t)
  replaced s t (ok t') =
      attempt (db.fault updates) t (
        commit db t (mark_replaced s.id draw.session_id draw.database_now t')
          (ok (rotated_grant s)))

  -- What follows the select.
  unfoldable pub rotate_session :
      Option SessionRecord → Table → Result AppError RefreshGrant × Table
  unfolding revoke_family rotated_expiry mark_replaced insert_session
  rotate_session none t = (err unauthorized, t)
  rotate_session (some s) t =
      if not (is_none s.revoked_at)
      then attempt (db.fault revokes) t
          (commit db t (revoke_family s.family_id draw.database_now t) (err unauthorized))
      else if leb s.expires_at draw.now || leb s.family_expires_at draw.now
      then attempt (db.fault rolls_back) t (err unauthorized, t)
      else attempt (db.fault inserts) t (replaced s t (insert_session (rotated_row s) t))

  unfoldable pub rotate_refresh_token : Text → Table → Result AppError RefreshGrant × Table
  unfolding rotate_session session_by_hash
  rotate_refresh_token presented t =
      attempt (db.fault begins) t
        (attempt (db.fault selects) t (rotate_session (session_by_hash (hash presented) t) t))
