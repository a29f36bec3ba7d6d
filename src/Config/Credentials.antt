-- ===== src/Config/Credentials.antt =====
-- src/auth/settings.rs: credentials and their lifetimes. The secret's length is in bytes.
use luxor.Base.{
  ℕ, ◌≡◌, refl, ◌≤◌, Bool, true, false, not, ◌&&◌, Option, none, some, List, [], ◌∷◌, ◌++◌, Text,
  codes, text_eq, len, filter, length, leb, ◌==◌, if◌then◌else◌, Result, ok, err, ◌>>=◌, ◌>>◌,
  ensure, Ensures, Ensures-elim, Ensures-bind, Ensures-guard, Ensures-ok, arith,
}
use luxor.Base.Numbers.{ℤ, pos, leb_int, parse_i64, parse_bool}
use luxor.Config.{
  ConfigError, validation, Env, get, is_production, parse, required_or_dev, Url, parse_url, is_none,
  or_default,
}

pub record OauthConfig : Type 0 where
  pub authorization_url : Url
  pub token_url : Url
  pub client_id : Text
  pub client_secret : Text
  pub redirect_url : Url

pub record AuthSettings : Type 0 where
  pub jwt_secret : Text
  pub jwt_issuer : Text
  pub access_token_ttl_seconds : ℤ
  pub refresh_token_ttl_seconds : ℤ
  pub refresh_family_ttl_seconds : ℤ
  pub refresh_cookie_secure : Bool
  pub refresh_cookie_name : Text
  pub oauth : Option OauthConfig

abbrev pub dev_jwt_secret : Text
dev_jwt_secret = codes "development-only-secret-change-me"

abbrev oauth_keys : List Text
oauth_keys =
    codes "OAUTH_AUTHORIZATION_URL"
    ∷ codes "OAUTH_TOKEN_URL"
    ∷ codes "OAUTH_CLIENT_ID"
    ∷ codes "OAUTH_CLIENT_SECRET"
    ∷ codes "OAUTH_REDIRECT_URL"
    ∷ []

abbrev http_schemes : List Text
http_schemes = codes "http" ∷ codes "https" ∷ []

-- `present`: how many of the keys are set.
abbrev pub present_keys : Env → ℕ
present_keys env = length (filter (λ key. not (is_none (get env key))) oauth_keys)

abbrev pub oauth_message : Text
oauth_message =
    codes
      "OAuth configuration is all-or-nothing; set OAUTH_AUTHORIZATION_URL, OAUTH_TOKEN_URL, OAUTH_CLIENT_ID, OAUTH_CLIENT_SECRET, OAUTH_REDIRECT_URL"

-- `env.get(key).unwrap()`, where the key is known to be set.
abbrev unwrap : Env → Text → Text
unwrap env key = or_default (get env key) []

abbrev pub is_positive : ℤ → Bool
is_positive n = not (leb_int n (pos 0))

module _ (url_parse : Text → Result Text Url) where
  abbrev oauth_url : Env → Text → Result ConfigError Url
  oauth_url env key = parse_url url_parse key (unwrap env key) http_schemes

  abbrev oauth_config : Env → Result ConfigError OauthConfig
  oauth_config env = oauth_url env (codes "OAUTH_AUTHORIZATION_URL") >>= λ authorization.
      oauth_url env (codes "OAUTH_TOKEN_URL") >>= λ token.
      oauth_url env (codes "OAUTH_REDIRECT_URL") >>= λ redirect. ok (record {
        authorization_url = authorization;
        token_url = token;
        client_id = unwrap env (codes "OAUTH_CLIENT_ID");
        client_secret = unwrap env (codes "OAUTH_CLIENT_SECRET");
        redirect_url = redirect;
      })

  unfoldable pub parse_oauth : Env → Result ConfigError (Option OauthConfig)
  unfolding get parse_url filter
  parse_oauth env =
      let configured = oauth_config env >>= λ c. ok (some c) in
      if present_keys env == 0
      then ok none
      else if present_keys env == 5
      then configured
      else err (validation oauth_message)

  -- `AuthSettings::from_env`.
  unfoldable pub auth_settings : Env → Result ConfigError AuthSettings
  unfolding required_or_dev parse parse_i64 parse_bool parse_oauth len text_eq
  auth_settings env = required_or_dev env (codes "JWT_SECRET") dev_jwt_secret >>= λ secret.
      ensure (leb 32 (len secret))
        (validation (codes "JWT_SECRET must contain at least 32 characters"))
      >> ensure (not (is_production env && text_eq secret dev_jwt_secret))
          (validation (codes "the development JWT_SECRET cannot be used in production"))
      >> (parse parse_i64 env (codes "ACCESS_TOKEN_TTL_SECONDS") (pos 900) >>= λ access.
          parse parse_i64 env (codes "REFRESH_TOKEN_TTL_SECONDS") (pos 2592000) >>= λ refresh.
          ensure (is_positive access && is_positive refresh)
            (validation (codes "token lifetimes must be greater than zero"))
          >> ensure (not (leb_int refresh access))
              (validation (codes "refresh token lifetime must exceed access token lifetime"))
          >> (parse parse_i64 env (codes "REFRESH_FAMILY_TTL_SECONDS") (pos 7776000) >>= λ family.
              ensure (leb_int refresh family) (
                validation
                  (codes "refresh family lifetime must be at least the refresh token lifetime"))
              >> (parse_oauth env >>= λ oauth.
                  parse parse_bool env (codes "REFRESH_COOKIE_SECURE") (is_production env)
                  >>= λ secure.
                      ensure (not (is_production env && not secure)) (
                        validation (codes "REFRESH_COOKIE_SECURE cannot be disabled in production"))
                      >> ok (record {
                        jwt_secret = secret;
                        jwt_issuer = env.app_name;
                        access_token_ttl_seconds = access;
                        refresh_token_ttl_seconds = refresh;
                        refresh_family_ttl_seconds = family;
                        refresh_cookie_secure = secure;
                        refresh_cookie_name = env.app_name ++ codes "_refresh";
                        oauth = oauth;
                      }))))

  -- What every deployment relies on.
  pub IsSound : Env → AuthSettings → Type 0
  IsSound env s =
      (32 ≤ len s.jwt_secret)
      × (is_positive s.access_token_ttl_seconds ≡ true)
      × (leb_int s.refresh_token_ttl_seconds s.access_token_ttl_seconds ≡ false)
      × (leb_int s.refresh_token_ttl_seconds s.refresh_family_ttl_seconds ≡ true)
      × (is_production env ≡ true
          → (text_eq s.jwt_secret dev_jwt_secret ≡ false) × (s.refresh_cookie_secure ≡ true))

  auth_settings_lem : (env : Env) → Ensures (IsSound env) (auth_settings env)
  unfolding auth_settings IsSound
  auth_settings_lem env = Ensures-bind _ _ _ λ secret _. Ensures-guard _ _ _ _ λ long.
      Ensures-guard _ _ _ _ λ fresh. Ensures-bind _ _ _ λ access _. Ensures-bind _ _ _ λ refresh _.
        Ensures-guard _ _ _ _ λ positive. Ensures-guard _ _ _ _ λ longer.
          Ensures-bind _ _ _ λ family _. Ensures-guard _ _ _ _ λ capped.
            Ensures-bind _ _ _ λ oauth _. Ensures-bind _ _ _ λ secure _.
              Ensures-guard _ _ _ _ λ kept. Ensures-ok _ _ _ refl (
                ground arith,
                ground arith,
                ground arith,
                ground arith,
                λ p. (ground arith, ground arith),
              )

  -- Credentials that load have a secret of at least 32 bytes, an access token that lasts a positive
  -- time, a refresh token that lasts longer, and a family that lasts at least as long as that; in
  -- production the secret is not the development one and the refresh cookie is secure.
  pub auth_settings-IsSound :
      (env : Env) (s : AuthSettings) → auth_settings env ≡ ok s → IsSound env s
  auth_settings-IsSound env s = Ensures-elim (IsSound env) (auth_settings_lem env)
