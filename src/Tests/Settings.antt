-- ===== src/Tests/Settings.antt =====
-- Inputs for the configuration.
use luxor.Base.{
  is_ascii_alphanumeric, starts_with_char, if◌then◌else◌, refl, true, false, none, some, [], ◌∷◌,
  Text, codes, Result, ok, ◌>>=◌, ◌>>◌, text_eq, len, to_ascii_lowercase, to_decimal, trim,
  trim_start, trim_end, split, filter, find,
}
use luxor.Base.Map.{Map, lookup}
use luxor.Base.Numbers.{pos, parse_i64, parse_unsigned, parse_digits, parse_bool}
use luxor.Config.{
  Env, production, get, get_value, parse, required_or_dev, Url, parse_url, validate_origin, join,
  new_env, environment_from_str, parse_app_name, infrastructure_url,
}
use luxor.Config.Features.{Build, refuse_excluded_features, refuse_features}
use luxor.Config.Credentials.{AuthSettings, auth_settings, parse_oauth}
use luxor.Config.Quotas.{
  RateLimitSettings, RealtimeSettings, rate_limit_settings, realtime_settings, parse_quota,
  client_ip_source_from_str,
}
use luxor.Config.Listener.{
  http_settings, HttpSettings, parse_hsts, cors_list, validate_origins, trim_slashes,
  https_enforcement_from_str,
}
use luxor.Config.Kafka.{kafka_from_env}
use luxor.Config.Sections.{database_settings, telemetry_settings, cache_settings, queue_settings}
use luxor.Config.Loaded.{
  Config, from_map, sections, redis_of, realtime_of, kafka_of, IsLoaded, from_map-IsLoaded,
}
use luxor.RateLimit.Enforce.{x_forwarded_for}
use luxor.Server.{proxy_header}

abbrev deployed : Env
deployed = record {
  values =
      (codes "APP_ENV", codes "production")
      ∷ (codes "JWT_SECRET", codes "production-test-secret-at-least-32-characters")
      ∷ (codes "RATE_LIMIT_AUTH_MAX_REQUESTS", codes "5")
      ∷ (codes "CORS_ORIGINS", codes "https://app.example.com")
      ∷ [];
  environment = production;
  app_name = codes "luxor";
}

-- The one URL that is read.
abbrev example_url : Url
example_url = record {
  scheme = codes "https";
  host = some (codes "app.example.com");
  username = [];
  password = none;
  path = codes "/";
  query = none;
  fragment = none;
}

abbrev read_url : Text → Result Text Url
read_url t = ok example_url

-- An address is its text.
abbrev read_ip : Text → Result Text Text
read_ip t = ok t

abbrev auth_loaded : AuthSettings
auth_loaded = record {
  jwt_secret = codes "production-test-secret-at-least-32-characters";
  jwt_issuer = codes "luxor";
  access_token_ttl_seconds = pos 900;
  refresh_token_ttl_seconds = pos 2592000;
  refresh_family_ttl_seconds = pos 7776000;
  refresh_cookie_secure = true;
  refresh_cookie_name = codes "luxor_refresh";
  oauth = none;
}

reading : Unit {0}
unfolding get get_value lookup parse parse_i64 parse_unsigned parse_digits parse_bool
    required_or_dev parse_url join validate_origin ◌>>=◌ ◌>>◌ text_eq len to_ascii_lowercase
    to_decimal trim trim_start trim_end split filter find
reading = tt

abbrev limits_loaded : RateLimitSettings
limits_loaded = record {
  enabled = true;
  client_ip_source = x_forwarded_for;
  namespace = codes "luxor:ratelimit";
  auth = record { max_requests = 5; window_seconds = 60 };
  api = record { max_requests = 120; window_seconds = 60 };
}

abbrev realtime_loaded : RealtimeSettings
realtime_loaded = record { max_connections = 100; ticket_ttl_seconds = 30 }

abbrev http_loaded : HttpSettings Text
http_loaded = record {
  host = codes "0.0.0.0";
  port = 8080;
  cors_origins = codes "https://app.example.com" ∷ [];
  body_limit_bytes = 1048576;
  request_timeout_seconds = 30;
  hsts = record {
    enabled = true;
    max_age_seconds = 31536000;
    include_subdomains = true;
    preload = false;
  };
  https_enforcement = proxy_header;
  open_browser = false;
  public_base_url = codes "https://app.example.com";
  bind_address = (codes "0.0.0.0", 8080);
}

abbrev bare : Build
bare = record { redis = false; kafka = false; otel = true; sentry = true; realtime = true }

-- A database's URL is told by its first letter.
abbrev read_any : Text → Result Text Url
read_any t = ok (
    if starts_with_char b'p' t
    then record example_url { scheme = codes "postgres" }
    else example_url)

abbrev read_dsn : Text → Result Text (Unit {0})
read_dsn t = ok tt

abbrev values : Map Text
values = (codes "DATABASE_URL", codes "postgres://db/luxor") ∷ deployed.values

abbrev pub config : Config Text
config = record {
  app_name = codes "luxor";
  environment = production;
  http = http_loaded;
  database = record { url = some (codes "postgres://db/luxor"); auto_migrate = false };
  redis_url = none;
  auth = auth_loaded;
  cache = record { namespace = codes "luxor:cache" };
  queue = record { key = codes "luxor:queue:jobs" };
  rate_limit = limits_loaded;
  realtime = some realtime_loaded;
  kafka = none;
  telemetry = record {
    otlp_endpoint = none;
    service_name = some (codes "luxor");
    sentry_dsn = none;
  };
}

from_map-IsLoaded_example : IsLoaded read_any read_ip read_dsn bare values config
unfolding reading from_map new_env environment_from_str parse_app_name is_ascii_alphanumeric
    refuse_excluded_features refuse_features sections http_settings parse_hsts cors_list
    validate_origins trim_slashes https_enforcement_from_str database_settings infrastructure_url
    redis_of auth_settings parse_oauth rate_limit_settings parse_quota client_ip_source_from_str
    realtime_of realtime_settings kafka_of kafka_from_env telemetry_settings cache_settings
    queue_settings
from_map-IsLoaded_example = from_map-IsLoaded read_any read_ip read_dsn bare values config refl
