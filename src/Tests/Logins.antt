-- ===== src/Tests/Logins.antt =====
-- Inputs for accounts: a registration, and logins to it.
use luxor.Base.{
  ℕ, ◌≡◌, refl, inl, false, true, Option, none, some, [], ◌∷◌, Text, codes, len, text_eq,
  text_eq_refl, ok, err, ◌>>◌, trim, to_ascii_lowercase, split, split_once, find, filter,
}
use luxor.Access.{admin, role_name, from_name}
use luxor.Error.{unauthorized}
use luxor.Validation.{email}
use luxor.Auth.{Claims}
use luxor.Base.Map.{Map, lookup}
use luxor.Sessions.{SessionRecord, revoke_session, insert_session}
use luxor.Sessions.Rotation.{RefreshPolicy, RefreshGrant, issue_refresh_token}
use luxor.Accounts.{
  UserRecord, UserRow, UserDatabase, create_user, insert_user, user_by_email, try_from,
  update_password_hash,
}
use luxor.Accounts.Passwords.{
  Argon2, PasswordHash, argon2id, is_below_pinned_cost, hash_password, hash_with_pinned_parameters,
  verify_password, equalize_login_timing,
}
use luxor.Accounts.Strength.{
  strength_sample, is_char_boundary, last_boundary, slice_to, strength_user_inputs,
  validate_password_length, validate_password_strength,
}
use luxor.Accounts.Credentials.{
  World, Tables, normalize_email, screened, signed_in, upgraded, register, authenticated, login,
}
use luxor.Accounts.Outcome.{IsLogin, login_ok, login_refused}
use luxor.Accounts.Handlers.{Site, Clock, handle_refresh, handle_logout, expired_refresh_cookie}
use luxor.Accounts.Logout.{handle_refresh-handle_logout}
use luxor.Accounts.Registered.{IsSound, login-register}

logins : Unit {0}
unfolding register login screened email create_user insert_user try_from user_by_email hash_password
    hash_with_pinned_parameters verify_password is_below_pinned_cost validate_password_length
    validate_password_strength strength_sample is_char_boundary last_boundary slice_to
    strength_user_inputs normalize_email trim to_ascii_lowercase len signed_in issue_refresh_token
    insert_session upgraded authenticated role_name from_name text_eq split split_once find filter
    ◌>>◌ equalize_login_timing update_password_hash
logins = tt

abbrev current : PasswordHash
current = record {
  algorithm = some argon2id;
  version = some 0x13;
  params = some (record { m_cost = 19456; t_cost = 2; p_cost = 1 });
}

abbrev argon2 : Argon2
argon2 = record {
  parse = λ encoded. some current;
  verifies = λ password encoded. text_eq encoded (b'$' ∷ password);
  hash = λ password salt. some (b'$' ∷ password);
}

made_of :
    (password password_hash : Text)
    → ◌≡◌ {A = Option Text} (some (b'$' ∷ password)) (some password_hash)
    → password_hash ≡ b'$' ∷ password
made_of password password_hash e = cc

argon2-IsSound : IsSound argon2
argon2-IsSound password salt password_hash e =
    rw (made_of password password_hash e) (text_eq_refl (b'$' ∷ password), current, refl)

abbrev users_database : UserDatabase
users_database = record {
  fault = λ s. none;
  lower = λ s. s;
  next_id = 1;
  now = 5;
  unknown_role = λ s. s;
}

abbrev world : ℕ → Text → World
world session token = record {
  argon2 = argon2;
  zxcvbn = λ sample inputs. record { score = 4; warning = none };
  joins = true;
  salt = codes "salt";
  users_database = users_database;
  token_hash = λ s. b'#' ∷ s;
  sessions_database = record { fault = λ s. none; commit_applied = false };
  draw = record {
    token = token;
    session_id = session;
    family_id = session;
    now = 5;
    database_now = 5;
  };
}

abbrev policy : RefreshPolicy
policy = record { token_ttl_seconds = 60; family_ttl_seconds = 90 }

abbrev nothing : Tables
nothing = record { users = []; sessions = [] }

abbrev password : Text
password = codes "correct horse"

abbrev ada : UserRecord
ada = record {
  id = 1;
  email = codes "ada@b.org";
  password_hash = b'$' ∷ password;
  role = admin;
  created_at = 5;
  updated_at = 5;
}

abbrev grant : Text → RefreshGrant
grant token = record { token = token; user_id = 1; expires_at = 60000005 }

abbrev row : UserRow
row = record {
  id = 1;
  email = codes "ada@b.org";
  password_hash = b'$' ∷ password;
  role = codes "admin";
  created_at = 5;
  updated_at = 5;
}

abbrev session : ℕ → Text → SessionRecord
session id token = record {
  id = id;
  user_id = 1;
  family_id = id;
  token_hash = b'#' ∷ token;
  expires_at = 60000005;
  family_expires_at = 90000005;
  revoked_at = none;
  replaced_by = none;
  created_at = 5;
}

abbrev accounts : Tables
accounts = record { users = row ∷ []; sessions = session 1 (codes "a") ∷ [] }

abbrev accounts_later : Tables
accounts_later = record accounts { sessions = session 1 (codes "a") ∷ session 2 (codes "b") ∷ [] }

register_run :
    register (world 1 (codes "a")) policy (codes " Ada@b.org") password admin nothing
    ≡ (ok (ada, grant (codes "a")), accounts)
unfolding logins
register_run = refl

login_run :
    login (world 2 (codes "b")) policy (codes "ADA@b.org ") password accounts
    ≡ (ok (ada, grant (codes "b")), accounts_later)
unfolding logins
login_run = refl

login_ok_example :
    IsLogin
      (world 2 (codes "b"))
      policy
      (codes "ADA@b.org ")
      password
      accounts
      ada
      (grant (codes "b"))
      accounts_later
login_ok_example =
    login_ok (world 2 (codes "b")) policy (codes "ADA@b.org ") password accounts ada
      (grant (codes "b")) accounts_later login_run

nobody : user_by_email users_database (normalize_email (codes "eve@b.org")) accounts.users ≡ ok none
unfolding logins
nobody = refl

login_refused_example :
    login (world 2 (codes "b")) policy (codes "eve@b.org") password accounts
    ≡ (err unauthorized, accounts)
login_refused_example =
    login_refused (world 2 (codes "b")) policy (codes "eve@b.org") password accounts refl
      (inl nobody)

issued :
    issue_refresh_token
      (λ s. b'#' ∷ s)
      policy
      (world 2 (codes "b")).sessions_database
      (world 2 (codes "b")).draw
      1
      accounts.sessions
    ≡ (ok (grant (codes "b")), accounts_later.sessions)
unfolding logins
issued = refl

same_address : normalize_email (codes "ADA@b.org ") ≡ normalize_email (codes " Ada@b.org")
unfolding logins
same_address = refl

login-register_example :
    (login (world 2 (codes "b")) policy (codes "ADA@b.org ") password accounts).0
    ≡ ok (ada, grant (codes "b"))
login-register_example =
    login-register (world 1 (codes "a")) (world 2 (codes "b")) policy (codes " Ada@b.org")
      (codes "ADA@b.org ") password admin nothing accounts ada (grant (codes "a"))
      (grant (codes "b")) accounts_later.sessions argon2-IsSound refl same_address register_run refl
      refl issued

abbrev site : Site
site = record {
  jwt = record { secret = codes "secret"; lifetime_seconds = 900; issuer = codes "luxor" };
  refresh_cookie_name = codes "luxor_refresh";
  refresh_cookie_secure = true;
  access_token_ttl_seconds = 900;
  policy = policy;
}

abbrev clock : Clock
clock = record { token_now = 0; cookie_now = 5 }

abbrev encode : Text → Claims → Option Text
encode secret claims = some (codes "token")

abbrev jar : Map Text
jar = (codes "luxor_refresh", codes "a") ∷ []

abbrev accounts_out : Tables
accounts_out = record accounts {
  sessions = record (session 1 (codes "a")) { revoked_at = some 5 } ∷ [];
}

logout_run : handle_logout site (world 2 (codes "b")) jar accounts ≡ (
  ok (record {
    name = codes "luxor_refresh";
    value = [];
    path = codes "/api/auth";
    http_only = true;
    secure = true;
    max_age = 0;
  }),
  accounts_out,
)
unfolding handle_logout lookup text_eq revoke_session expired_refresh_cookie
logout_run = refl

handle_refresh-handle_logout_example :
    (handle_refresh encode site clock (world 3 (codes "c")) jar accounts_out).0 ≡ err unauthorized
handle_refresh-handle_logout_example =
    handle_refresh-handle_logout encode site clock (world 2 (codes "b")) (world 3 (codes "c")) jar
      accounts accounts_out _ (λ s. refl) refl logout_run
