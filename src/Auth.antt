-- ===== src/Auth.antt =====
-- src/auth/jwt.rs: access tokens and the extractor that authenticates a request. Encoding and
-- decoding a token is a library's: it comes as parameters of the secret and, for decoding, of the
-- issuer that it requires and the time. Times are seconds.
pub mod Bearer
use luxor.Base.{
  ℕ, ◌+◌, Bool, not, Option, none, some, Text, codes, trim, is_empty, split_once,
  eq_ignore_ascii_case, if◌then◌else◌, Result, ok, err, ◌>>=◌, ok_or,
}
use luxor.Http.{HeaderMap, get, readable}
use luxor.Error.{AppError, unauthorized, authentication}
use luxor.Access.{Role}

pub record Claims : Type 0 where
  pub sub : ℕ
  pub role : Role
  pub iat : ℕ
  pub exp : ℕ
  pub iss : Text

pub record JwtService : Type 0 where
  pub secret : Text
  pub lifetime_seconds : ℕ
  pub issuer : Text

pub record AuthUser : Type 0 where
  pub id : ℕ
  pub role : Role

-- The two filters of the extractor, on the header's value as it was split.
abbrev pub bearer_of : Option (Text × Text) → Option Text
bearer_of none = none
bearer_of (some (scheme, token)) =
    if eq_ignore_ascii_case scheme (codes "bearer")
    then if not (is_empty (trim token)) then some (trim token) else none
    else none

unfoldable pub bearer_token : Text → Option Text
unfolding split_once eq_ignore_ascii_case trim
bearer_token value = bearer_of (split_once (codes " ") value)

abbrev pub claims_of : JwtService → ℕ → Role → ℕ → Claims
claims_of service user role now = record {
  sub = user;
  role = role;
  iat = now;
  exp = now + service.lifetime_seconds;
  iss = service.issuer;
}

module _ (encode : Text → Claims → Option Text) where
  unfoldable pub issue : JwtService → ℕ → Role → ℕ → Result AppError Text
  issue service user role now =
      ok_or (encode service.secret (claims_of service user role now)) authentication

module _ (decode : Text → Text → ℕ → Text → Option Claims) where
  unfoldable pub verify : JwtService → ℕ → Text → Result AppError Claims
  verify service now token = ok_or (decode service.secret service.issuer now token) unauthorized

  unfoldable pub from_request_parts : JwtService → ℕ → HeaderMap → Result AppError AuthUser
  unfolding get bearer_token verify
  from_request_parts service now headers =
      ok_or (readable (get (codes "authorization") headers)) unauthorized >>= λ value.
      ok_or (bearer_token value) unauthorized >>= λ token.
      verify service now token >>= λ claims. ok (record { id = claims.sub; role = claims.role })
