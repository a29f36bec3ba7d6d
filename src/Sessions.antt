-- ===== src/Sessions.antt =====
-- The table auth_sessions: src/models.rs, the statements of src/db.rs and the constraints of
-- migrations/. Times are microseconds, the precision of the database; identifiers are numbers. A
-- statement's `now` is the database's clock.
pub mod Rotation
pub mod Cases
pub mod Families
pub mod Replay
pub mod Outcome
pub mod Cleanup
use luxor.Base.{
  ℕ, ◌≤◌, Bool, true, false, not, ◌&&◌, ◌||◌, Option, none, some, List, [], ◌∷◌, ◌++◌, map, Text,
  codes, any, filter, text_eq, leb, ◌==◌, if◌then◌else◌, Result, ok, err,
}
use luxor.Error.{AppError, database}

pub record SessionRecord : Type 0 where
  pub id : ℕ
  pub user_id : ℕ
  pub family_id : ℕ
  pub token_hash : Text
  pub expires_at : ℕ
  pub family_expires_at : ℕ
  pub revoked_at : Option ℕ
  pub replaced_by : Option ℕ
  pub created_at : ℕ

abbrev pub Table : Type 0
Table = List SessionRecord

abbrev pub is_none {ℓ} : {A : Type ℓ} → Option A → Bool
is_none none = true
is_none (some a) = false

-- `WHERE token_hash = $1`, under the unique index.
unfoldable pub session_by_hash : Text → Table → Option SessionRecord
unfolding text_eq
session_by_hash hash [] = none
session_by_hash hash (r ∷ t) = if text_eq r.token_hash hash then some r else session_by_hash hash t

abbrev clashes : SessionRecord → SessionRecord → Bool
clashes row r = r.id == row.id || text_eq r.token_hash row.token_hash

-- The primary key and the unique index on the hash.
unfoldable pub insert_session : SessionRecord → Table → Result AppError Table
unfolding text_eq
insert_session row t =
    if any (clashes row) t
    then err (database (codes "duplicate key value violates unique constraint"))
    else ok (t ++ row ∷ [])

-- `COALESCE(revoked_at, now())`.
abbrev pub coalesce : Option ℕ → ℕ → Option ℕ
coalesce none now = some now
coalesce (some at) now = some at

abbrev pub revoke_row : (SessionRecord → Bool) → ℕ → SessionRecord → SessionRecord
revoke_row p now r = if p r then record r { revoked_at = coalesce r.revoked_at now } else r

unfoldable pub revoke_session : Text → ℕ → Table → Table
unfolding text_eq
revoke_session hash now = map (revoke_row (λ r. text_eq r.token_hash hash) now)

unfoldable pub revoke_family : ℕ → ℕ → Table → Table
revoke_family family now = map (revoke_row (λ r. r.family_id == family) now)

abbrev pub replace_row : ℕ → ℕ → ℕ → SessionRecord → SessionRecord
replace_row id next now r =
    if r.id == id then record r { revoked_at = some now; replaced_by = some next } else r

-- The update of `rotate_refresh_token`.
unfoldable pub mark_replaced : ℕ → ℕ → ℕ → Table → Table
mark_replaced id next now = map (replace_row id next now)

unfoldable pub delete_expired_session_families : ℕ → Table → Table
unfolding filter
delete_expired_session_families now = filter (λ r. not (leb r.family_expires_at now))
