-- ===== src/Accounts/Credentials.antt =====
-- src/services/auth.rs: registering an account and logging in.
use luxor.Base.{
  Bool, not, Option, none, some, Text, len, trim, to_ascii_lowercase, ltb, if◌then◌else◌, Result,
  ok, err, ◌>>◌,
}
use luxor.Access.{Role}
use luxor.Error.{AppError, unauthorized}
use luxor.Validation.{email}
use luxor.Sessions.{Table}
use luxor.Sessions.Rotation.{RefreshPolicy, RefreshGrant, Database, Draw, issue_refresh_token}
use luxor.Accounts.{
  Users, UserRecord, UserDatabase, create_user, user_by_email, update_password_hash,
}
use luxor.Accounts.Passwords.{
  Argon2, Verification, hash_password, verify_password, equalize_login_timing,
}
use luxor.Accounts.Strength.{
  Estimate, password_max_length, validate_password_length, validate_password_strength,
}
use mathlib.Core.List.{List}

-- What a call meets: the libraries, the database, and what is drawn.
pub record World : Type 0 where
  pub argon2 : Argon2
  pub zxcvbn : Text → List Text → Estimate
  -- Whether the blocking tasks are joined.
  pub joins : Bool
  pub salt : Text
  pub users_database : UserDatabase
  pub token_hash : Text → Text
  pub sessions_database : Database
  pub draw : Draw

-- The two tables.
pub record Tables : Type 0 where
  pub users : Users
  pub sessions : Table

abbrev pub Answer : Type 0
Answer = Result AppError (UserRecord × RefreshGrant) × Tables

unfoldable pub normalize_email : Text → Text
unfolding trim to_ascii_lowercase
normalize_email address = to_ascii_lowercase (trim address)

module _ (world : World) where
  -- The checks, and the hash of a password that passes them.
  unfoldable pub screened : Text → Text → Result AppError Text
  unfolding ◌>>◌ email validate_password_length validate_password_strength hash_password
  screened address password =
      email address
      >> validate_password_length password
      >> validate_password_strength world.zxcvbn world.joins address password
      >> hash_password world.argon2 world.joins world.salt password

  -- A failed upgrade is only logged.
  unfoldable pub upgraded : UserRecord → Option Text → Users → Users
  unfolding update_password_hash
  upgraded user none users = users
  upgraded user (some password_hash) users =
      (update_password_hash world.users_database user.id password_hash users).1

module _ (world : World) (policy : RefreshPolicy) where
  abbrev granted : UserRecord → Users → Result AppError RefreshGrant × Table → Answer
  granted user users (ok grant, sessions) =
      (ok (user, grant), record { users = users; sessions = sessions })
  granted user users (err e, sessions) = (err e, record { users = users; sessions = sessions })

  -- The last two lines of both: a session for the user.
  unfoldable pub signed_in : UserRecord → Tables → Answer
  unfolding issue_refresh_token
  signed_in user tables = granted user tables.users (
      issue_refresh_token world.token_hash policy world.sessions_database world.draw user.id
        tables.sessions)

  abbrev registered : Tables → Result AppError UserRecord × Users → Answer
  unfolding signed_in
  registered tables (err e, users) = (err e, record tables { users = users })
  registered tables (ok user, users) = signed_in user (record tables { users = users })

  abbrev enrolled : Text → Role → Tables → Result AppError Text → Answer
  unfolding create_user signed_in
  enrolled address role tables (err e) = (err e, tables)
  enrolled address role tables (ok password_hash) =
      registered tables (create_user world.users_database address password_hash role tables.users)

  unfoldable pub register : Text → Text → Role → Tables → Answer
  unfolding normalize_email screened create_user signed_in
  register address password role tables =
      enrolled (normalize_email address) role tables
        (screened world (normalize_email address) password)

  abbrev verified : UserRecord → Tables → Result AppError Verification → Answer
  unfolding upgraded signed_in
  verified user tables (err e) = (err e, tables)
  verified user tables (ok verification) =
      if not verification.matched
      then (err unauthorized, tables)
      else signed_in user
          (record tables { users = upgraded world user verification.upgraded_hash tables.users })

  abbrev burned : Tables → Result AppError (Unit {0}) → Answer
  burned tables (err e) = (err e, tables)
  burned tables (ok _) = (err unauthorized, tables)

  -- What follows the lookup.
  unfoldable pub authenticated : Text → Tables → Result AppError (Option UserRecord) → Answer
  unfolding equalize_login_timing verify_password upgraded signed_in
  authenticated password tables (err e) = (err e, tables)
  authenticated password tables (ok none) =
      burned tables (equalize_login_timing world.argon2 world.joins world.salt password)
  authenticated password tables (ok (some user)) =
      verified user tables
        (verify_password world.argon2 world.joins world.salt password user.password_hash)

  unfoldable pub login : Text → Text → Tables → Answer
  unfolding len normalize_email user_by_email authenticated
  login address password tables =
      if ltb password_max_length (len password)
      then (err unauthorized, tables)
      else authenticated password tables
          (user_by_email world.users_database (normalize_email address) tables.users)
