-- ===== src/Config/Listener.antt =====
-- src/server/settings.rs: the listener and the HTTP policy. Reading an IP address is the standard
-- library's and reading a URL a library's; both come as parameters.
use luxor.Base.{
  ℕ, Bool, true, false, not, ◌&&◌, ◌||◌, Option, none, some, List, [], ◌∷◌, ◌++◌, Text, codes,
  text_eq, to_ascii_lowercase, to_decimal, trim, split, map, filter, is_empty, ltb, ◌==◌,
  if◌then◌else◌, Result, ok, err, ◌>>=◌, ◌>>◌, ensure, map_err,
}
use luxor.Base.Numbers.{parse_unsigned, parse_bool}
use luxor.Config.{
  ConfigError, invalid, validation, Env, get, is_production, parse, or_default, Url,
  validate_origin,
}
use luxor.Server.{HttpsEnforcement, off, proxy_header}

unfoldable pub https_enforcement_from_str : Text → Result ConfigError HttpsEnforcement
unfolding to_ascii_lowercase text_eq
https_enforcement_from_str value =
    let lower = to_ascii_lowercase value in
    if text_eq lower (codes "off")
    then ok off
    else if text_eq lower (codes "proxy-header")
    then ok proxy_header
    else err (invalid (codes "HTTPS_ENFORCEMENT") value)

pub record HstsSettings : Type 0 where
  pub enabled : Bool
  pub max_age_seconds : ℕ
  pub include_subdomains : Bool
  pub preload : Bool

unfoldable pub header_value : HstsSettings → Text
unfolding to_decimal
header_value hsts =
    (codes "max-age=" ++ to_decimal hsts.max_age_seconds)
    ++ (if hsts.include_subdomains then codes "; includeSubDomains" else [])
    ++ (if hsts.preload then codes "; preload" else [])

abbrev pub hsts_preload_min_max_age : ℕ
hsts_preload_min_max_age = 31536000

unfoldable pub parse_hsts : Env → Result ConfigError HstsSettings
unfolding parse parse_bool parse_unsigned
parse_hsts env = parse parse_bool env (codes "HSTS_ENABLED") (is_production env) >>= λ enabled.
    parse (parse_unsigned 64) env (codes "HSTS_MAX_AGE_SECONDS") 31536000 >>= λ max_age.
    parse parse_bool env (codes "HSTS_INCLUDE_SUBDOMAINS") true >>= λ subdomains.
    parse parse_bool env (codes "HSTS_PRELOAD") false >>= λ preload.
    ensure (not (preload && not enabled)) (validation (codes "HSTS_PRELOAD requires HSTS_ENABLED"))
    >> ensure (not (preload && (not subdomains || ltb max_age hsts_preload_min_max_age))) (
        validation (
          codes
            "HSTS_PRELOAD requires HSTS_INCLUDE_SUBDOMAINS and an HSTS_MAX_AGE_SECONDS of at least 31536000"))
    >> ok (record {
      enabled = enabled;
      max_age_seconds = max_age;
      include_subdomains = subdomains;
      preload = preload;
    })

-- `trim_end_matches('/')`.
unfoldable pub trim_slashes : Text → Text
trim_slashes [] = []
trim_slashes (c ∷ s) =
    let rest = trim_slashes s in if is_empty rest && c == b'/' then [] else c ∷ rest

pub record HttpSettings (Ip : Type 0) : Type 0 where
  pub host : Text
  pub port : ℕ
  pub cors_origins : List Text
  pub body_limit_bytes : ℕ
  pub request_timeout_seconds : ℕ
  pub hsts : HstsSettings
  pub https_enforcement : HttpsEnforcement
  pub open_browser : Bool
  pub public_base_url : Text
  pub bind_address : Ip × ℕ

-- The first of the origins, which are not empty where it is read.
abbrev first_origin : List Text → Text
first_origin [] = []
first_origin (origin ∷ rest) = origin

unfoldable pub cors_list : Env → List Text
unfolding get split trim filter
cors_list env =
    filter (λ v. not (is_empty v))
      (map trim
        (split b',' (or_default (get env (codes "CORS_ORIGINS")) (codes "https://localhost:8080"))))

abbrev enforcement_of : Bool → Option Text → Result ConfigError HttpsEnforcement
enforcement_of in_production none = ok (if in_production then proxy_header else off)
enforcement_of in_production (some value) = https_enforcement_from_str value

abbrev default_host : Bool → Text
default_host in_production = if in_production then codes "0.0.0.0" else codes "127.0.0.1"

module _ (url_parse : Text → Result Text Url) where
  unfoldable pub validate_origins : Bool → List Text → Result ConfigError (Unit {0})
  unfolding validate_origin
  validate_origins in_production [] = ok tt
  validate_origins in_production (origin ∷ rest) =
      validate_origin url_parse (codes "CORS_ORIGINS") origin in_production
      >> validate_origins in_production rest

module _ {Ip : Type 0} (url_parse : Text → Result Text Url) (parse_ip : Text → Result Text Ip) where
  abbrev public_base : Env → Text → ℕ → List Text → Option Text → Result ConfigError Text
  public_base env host port origins (some value) =
      validate_origin url_parse (codes "PUBLIC_BASE_URL") value (is_production env)
      >> ok (trim_slashes value)
  public_base env host port origins none = ok (
      if is_production env
      then trim_slashes (first_origin origins)
      else codes "http://" ++ host ++ codes ":" ++ to_decimal port)

  -- `HttpSettings::from_env`.
  unfoldable pub http_settings : Env → Result ConfigError (HttpSettings Ip)
  unfolding parse parse_unsigned parse_bool get cors_list validate_origins parse_hsts trim_slashes
      https_enforcement_from_str to_decimal
  http_settings env =
      let host = or_default (get env (codes "APP_HOST")) (default_host (is_production env)) in
      map_err (invalid (codes "APP_HOST")) (parse_ip host) >>= λ ip.
      parse (parse_unsigned 16) env (codes "APP_PORT") 8080 >>= λ app_port.
      parse (parse_unsigned 16) env (codes "PORT") app_port >>= λ port.
      ensure (not (port == 0)) (validation (codes "APP_PORT must be greater than zero"))
      >> ensure (not (is_empty (cors_list env)))
          (validation (codes "CORS_ORIGINS must contain at least one origin"))
      >> validate_origins url_parse (is_production env) (cors_list env)
      >> (public_base env host port (cors_list env) (get env (codes "PUBLIC_BASE_URL")) >>= λ base.
          parse (parse_unsigned 64) env (codes "BODY_LIMIT_BYTES") 1048576 >>= λ body_limit.
          ensure (not (body_limit == 0))
            (validation (codes "BODY_LIMIT_BYTES must be greater than zero"))
          >> (parse (parse_unsigned 64) env (codes "REQUEST_TIMEOUT_SECONDS") 30 >>= λ timeout.
              ensure (not (timeout == 0))
                (validation (codes "REQUEST_TIMEOUT_SECONDS must be greater than zero"))
              >> (parse_hsts env >>= λ hsts.
                  enforcement_of (is_production env) (get env (codes "HTTPS_ENFORCEMENT"))
                  >>= λ enforcement.
                      parse parse_bool env (codes "APP_OPEN_BROWSER") false >>= λ open_browser.
                      ensure (not (is_production env && open_browser))
                        (validation (codes "APP_OPEN_BROWSER cannot be enabled in production"))
                      >> ok (record {
                        host = host;
                        port = port;
                        cors_origins = cors_list env;
                        body_limit_bytes = body_limit;
                        request_timeout_seconds = timeout;
                        hsts = hsts;
                        https_enforcement = enforcement;
                        open_browser = open_browser;
                        public_base_url = base;
                        bind_address = (ip, port);
                      }))))
