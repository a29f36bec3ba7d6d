-- ===== src/Accounts.antt =====
-- The table users: src/models.rs, the statements of src/db.rs and the constraints of migrations/.
-- Its children model src/auth/password.rs and src/services/auth.rs.
pub mod Passwords
pub mod Strength
pub mod Sample
pub mod Credentials
pub mod Outcome
pub mod Registered
pub mod Handlers
pub mod Logout
use luxor.Base.{
  ℕ, Bool, true, false, not, ◌&&◌, ◌||◌, Option, none, some, List, [], ◌∷◌, ◌++◌, map, Text, codes,
  any, find, length, text_eq, leb, ◌==◌, if◌then◌else◌, Result, ok, err,
}
use luxor.Access.{Role, role_name, from_name}
use luxor.Error.{AppError, database, conflict}

pub record UserRow : Type 0 where
  pub id : ℕ
  pub email : Text
  pub password_hash : Text
  pub role : Text
  pub created_at : ℕ
  pub updated_at : ℕ

pub record UserRecord : Type 0 where
  pub id : ℕ
  pub email : Text
  pub password_hash : Text
  pub role : Role
  pub created_at : ℕ
  pub updated_at : ℕ

abbrev pub Users : Type 0
Users = List UserRow

pub data UserStatement : Type 0 where
  selects inserts updates : UserStatement

-- A statement that fails: on a unique index, or otherwise, with the error's text.
pub data SqlError : Type 0 where
  unique_violation : SqlError
  other : Text → SqlError

-- The database: the statements that fail, its `lower`, the identifier and the time that it draws,
-- and the text of an error about a role that is not known.
pub record UserDatabase : Type 0 where
  pub fault : UserStatement → Option Text
  pub lower : Text → Text
  pub next_id : ℕ
  pub now : ℕ
  pub unknown_role : Text → Text

unfoldable pub map_user_write_error : SqlError → AppError
map_user_write_error unique_violation = conflict (codes "user")
map_user_write_error (other d) = database d

abbrev pub taken : UserRow → UserRow → Bool
taken row r = r.id == row.id || text_eq r.email row.email

module _ (db : UserDatabase) where
  abbrev record_of : UserRow → Option Role → Result AppError UserRecord
  record_of row none = err (database (db.unknown_role row.role))
  record_of row (some role) = ok (record {
    id = row.id;
    email = row.email;
    password_hash = row.password_hash;
    role = role;
    created_at = row.created_at;
    updated_at = row.updated_at;
  })

  -- `TryFrom<UserRow> for UserRecord`.
  unfoldable pub try_from : UserRow → Result AppError UserRecord
  unfolding from_name
  try_from row = record_of row (from_name row.role)

  -- The check constraints, then the primary key and the unique index.
  unfoldable pub insert_user : UserRow → Users → Result SqlError Users
  unfolding text_eq
  insert_user row users =
      if not (text_eq row.email (db.lower row.email)) || leb (length row.email) 3
      then err (other (codes "violates check constraint"))
      else if any (taken row) users
      then err unique_violation
      else ok (users ++ row ∷ [])

  abbrev pub new_row : Text → Text → Role → UserRow
  unfolding role_name
  new_row email password_hash role = record {
    id = db.next_id;
    email = email;
    password_hash = password_hash;
    role = role_name role;
    created_at = db.now;
    updated_at = db.now;
  }

  abbrev created : UserRow → Users → Result SqlError Users → Result AppError UserRecord × Users
  unfolding try_from
  created row users (err e) = (err (map_user_write_error e), users)
  created row users (ok users') = (try_from row, users')

  unfoldable pub create_user : Text → Text → Role → Users → Result AppError UserRecord × Users
  unfolding insert_user try_from map_user_write_error
  create_user email password_hash role users = elim (db.fault inserts) [
    | some d ↦ (err (map_user_write_error (other d)), users)
    | none ↦
        created (new_row email password_hash role) users
          (insert_user (new_row email password_hash role) users)
  ]

  abbrev transpose : Result AppError UserRecord → Result AppError (Option UserRecord)
  transpose (ok user) = ok (some user)
  transpose (err e) = err e

  abbrev fetched : Option Text → Option UserRow → Result AppError (Option UserRecord)
  unfolding try_from
  fetched (some d) row = err (database d)
  fetched none none = ok none
  fetched none (some row) = transpose (try_from row)

  unfoldable pub user_by_email : Text → Users → Result AppError (Option UserRecord)
  unfolding try_from text_eq find
  user_by_email email users =
      fetched (db.fault selects) (find (λ row. text_eq row.email email) users)

  unfoldable pub user_by_id : ℕ → Users → Result AppError (Option UserRecord)
  unfolding try_from find
  user_by_id id users = fetched (db.fault selects) (find (λ row. row.id == id) users)

  abbrev pub rehashed : ℕ → Text → UserRow → UserRow
  rehashed id password_hash row =
      if row.id == id
      then record row { password_hash = password_hash; updated_at = db.now }
      else row

  unfoldable pub update_password_hash : ℕ → Text → Users → Result AppError (Unit {0}) × Users
  update_password_hash id password_hash users = elim (db.fault updates) [
    | some d ↦ (err (database d), users)
    | none ↦ (ok tt, map (rehashed id password_hash) users)
  ]
