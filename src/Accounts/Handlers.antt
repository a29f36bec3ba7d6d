-- ===== src/Accounts/Handlers.antt =====
-- src/handlers/auth.rs: the endpoints of registration, login, refresh, logout and the own account.
-- The cookies of a request are a map, which is what the cookie library makes of them.
use luxor.Base.{
  ℕ, ◌-◌, ◌/◌, Bool, true, Option, none, some, [], Text, codes, Result, ok, err, ◌>>=◌, ok_or,
}
use luxor.Base.Map.{Map, lookup}
use luxor.Access.{Role}
use luxor.Error.{AppError, unauthorized, database}
use luxor.Auth.{Claims, JwtService, issue}
use luxor.Sessions.{Table, revoke_session}
use luxor.Sessions.Rotation.{RefreshPolicy, RefreshGrant, revokes, rotate_refresh_token}
use luxor.Accounts.{Users, UserRecord, user_by_id}
use luxor.Accounts.Credentials.{World, Tables, Answer, register, login}

pub record PublicUser : Type 0 where
  pub id : ℕ
  pub email : Text
  pub role : Role
  pub created_at : ℕ

abbrev pub public_user : UserRecord → PublicUser
public_user account = record {
  id = account.id;
  email = account.email;
  role = account.role;
  created_at = account.created_at;
}

-- Every refresh cookie is strict about its site.
pub record Cookie : Type 0 where
  pub name : Text
  pub value : Text
  pub path : Text
  pub http_only : Bool
  pub secure : Bool
  pub max_age : ℕ

pub record AuthResponse : Type 0 where
  pub access_token : Text
  pub token_type : Text
  pub expires_in : ℕ
  pub user : PublicUser

-- What of the state the handlers read.
pub record Site : Type 0 where
  pub jwt : JwtService
  pub refresh_cookie_name : Text
  pub refresh_cookie_secure : Bool
  pub access_token_ttl_seconds : ℕ
  pub policy : RefreshPolicy

-- When a handler makes its token, in seconds, and its cookie, in microseconds.
pub record Clock : Type 0 where
  pub token_now : ℕ
  pub cookie_now : ℕ

pub record SignedIn : Type 0 where
  pub status : ℕ
  pub cookie : Cookie
  pub body : AuthResponse

abbrev refresh_cookie_path : Text
refresh_cookie_path = codes "/api/auth"

unfoldable pub refresh_cookie : Site → ℕ → RefreshGrant → Cookie
refresh_cookie site now grant = record {
  name = site.refresh_cookie_name;
  value = grant.token;
  path = refresh_cookie_path;
  http_only = true;
  secure = site.refresh_cookie_secure;
  max_age = (grant.expires_at - now) / 1000000;
}

unfoldable pub expired_refresh_cookie : Site → Cookie
expired_refresh_cookie site = record {
  name = site.refresh_cookie_name;
  value = [];
  path = refresh_cookie_path;
  http_only = true;
  secure = site.refresh_cookie_secure;
  max_age = 0;
}

unfoldable pub auth_response : Site → Text → PublicUser → AuthResponse
auth_response site access_token user = record {
  access_token = access_token;
  token_type = codes "Bearer";
  expires_in = site.access_token_ttl_seconds;
  user = user;
}

module _ (encode : Text → Claims → Option Text) (site : Site) (clock : Clock) where
  -- The access token, the cookie and the body of an answer.
  unfoldable pub respond_signed_in : ℕ → UserRecord → RefreshGrant → Result AppError SignedIn
  unfolding issue refresh_cookie auth_response
  respond_signed_in status account grant =
      issue encode site.jwt account.id account.role clock.token_now >>= λ access_token. ok (record {
        status = status;
        cookie = refresh_cookie site clock.cookie_now grant;
        body = auth_response site access_token (public_user account);
      })

  abbrev answered : ℕ → Answer → Result AppError SignedIn × Tables
  answered status (err e, tables) = (err e, tables)
  answered status (ok (account, grant), tables) = (respond_signed_in status account grant, tables)

  -- What is announced of a registration that is answered.
  abbrev announced : Result AppError SignedIn → Option (ℕ × Role)
  announced (err e) = none
  announced (ok signed_in) = some (signed_in.body.user.id, signed_in.body.user.role)

  abbrev with_announcement :
      Result AppError SignedIn × Tables → Result AppError SignedIn × Tables × Option (ℕ × Role)
  with_announcement (result, tables) = (result, tables, announced result)

  unfoldable pub handle_register :
      World → Text → Text → Role → Tables → Result AppError SignedIn × Tables × Option (ℕ × Role)
  unfolding register respond_signed_in
  handle_register world address password role tables =
      with_announcement (answered 201 (register world site.policy address password role tables))

  unfoldable pub handle_login : World → Text → Text → Tables → Result AppError SignedIn × Tables
  unfolding login respond_signed_in
  handle_login world address password tables =
      answered 200 (login world site.policy address password tables)

  abbrev own_account : Result AppError (Option UserRecord) → Result AppError UserRecord
  own_account (err e) = err e
  own_account (ok account) = ok_or account unauthorized

  abbrev pub refreshed :
      World → Users → Result AppError RefreshGrant × Table → Result AppError SignedIn × Tables
  refreshed world users (err e, sessions) = (err e, record { users = users; sessions = sessions })
  refreshed world users (ok grant, sessions) = (
    own_account (user_by_id world.users_database grant.user_id users) >>= λ account.
        respond_signed_in 200 account grant,
    record { users = users; sessions = sessions },
  )

  abbrev pub presented : World → Tables → Option Text → Result AppError SignedIn × Tables
  presented world tables none = (err unauthorized, tables)
  presented world tables (some token) = refreshed world tables.users (
      rotate_refresh_token world.token_hash site.policy world.sessions_database world.draw token
        tables.sessions)

  unfoldable pub handle_refresh : World → Map Text → Tables → Result AppError SignedIn × Tables
  unfolding rotate_refresh_token user_by_id respond_signed_in lookup
  handle_refresh world jar tables = presented world tables (lookup site.refresh_cookie_name jar)

module _ (site : Site) (world : World) where
  abbrev revoked : Tables → Text → Option Text → Result AppError Cookie × Tables
  revoked tables token (some failure) = (err (database failure), tables)
  revoked tables token none = (
    ok (expired_refresh_cookie site),
    record tables {
      sessions = revoke_session (world.token_hash token) world.draw.database_now tables.sessions;
    },
  )

  abbrev pub logged_out : Tables → Option Text → Result AppError Cookie × Tables
  logged_out tables none = (ok (expired_refresh_cookie site), tables)
  logged_out tables (some token) = revoked tables token (world.sessions_database.fault revokes)

  -- The answer is 204, with the cookie that removes the client's.
  unfoldable pub handle_logout : Map Text → Tables → Result AppError Cookie × Tables
  unfolding revoke_session expired_refresh_cookie lookup
  handle_logout jar tables = logged_out tables (lookup site.refresh_cookie_name jar)

  abbrev shown : Result AppError (Option UserRecord) → Result AppError PublicUser
  shown (err e) = err e
  shown (ok none) = err unauthorized
  shown (ok (some account)) = ok (public_user account)

  unfoldable pub me : ℕ → Tables → Result AppError PublicUser
  unfolding user_by_id
  me id tables = shown (user_by_id world.users_database id tables.users)
