-- ===== src/Config/Quotas.antt =====
-- src/rate_limit.rs and src/realtime.rs: the settings of the limits.
use luxor.Base.{
  ℕ, ◌≡◌, refl, ◌≤◌, Bool, true, not, ◌&&◌, Option, none, some, ◌++◌, Text, codes, text_eq,
  to_ascii_lowercase, leb, ◌==◌, if◌then◌else◌, Result, ok, err, ◌>>=◌, ◌>>◌, ensure, Ensures,
  Ensures-elim, Ensures-bind, Ensures-guard, Ensures-ok, arith,
}
use luxor.Base.Numbers.{parse_unsigned, parse_bool}
use luxor.Config.{ConfigError, invalid, validation, Env, get, is_production, parse, or_default}
use luxor.RateLimit.{RateLimitQuota}
use luxor.RateLimit.Enforce.{ClientIpSource, socket, x_forwarded_for}

unfoldable pub client_ip_source_from_str : Text → Result ConfigError ClientIpSource
unfolding to_ascii_lowercase text_eq
client_ip_source_from_str value =
    let lower = to_ascii_lowercase value in
    if text_eq lower (codes "socket")
    then ok socket
    else if text_eq lower (codes "x-forwarded-for")
    then ok x_forwarded_for
    else err (invalid (codes "CLIENT_IP_SOURCE") value)

unfoldable pub parse_quota : Env → Text × ℕ → Text × ℕ → Result ConfigError RateLimitQuota
unfolding parse parse_unsigned
parse_quota env (max_key, default_max) (window_key, default_window) =
    parse (parse_unsigned 32) env max_key default_max >>= λ max_requests.
    ensure (not (max_requests == 0)) (validation (max_key ++ codes " must be greater than zero"))
    >> (parse (parse_unsigned 64) env window_key default_window >>= λ window_seconds.
        ensure (leb 1 window_seconds && leb window_seconds 86400)
          (validation (window_key ++ codes " must be between 1 and 86400 seconds"))
        >> ok (record { max_requests = max_requests; window_seconds = window_seconds }))

pub record RateLimitSettings : Type 0 where
  pub enabled : Bool
  pub client_ip_source : ClientIpSource
  pub namespace : Text
  pub auth : RateLimitQuota
  pub api : RateLimitQuota

abbrev pub source_of : Bool → Option Text → Result ConfigError ClientIpSource
source_of in_production none = ok (if in_production then x_forwarded_for else socket)
source_of in_production (some value) = client_ip_source_from_str value

-- `RateLimitSettings::from_env`.
unfoldable pub rate_limit_settings : Env → Result ConfigError RateLimitSettings
unfolding parse parse_bool client_ip_source_from_str get parse_quota
rate_limit_settings env = parse parse_bool env (codes "RATE_LIMIT_ENABLED") true >>= λ enabled.
    ensure (not (is_production env && not enabled))
      (validation (codes "RATE_LIMIT_ENABLED cannot be disabled in production"))
    >> (source_of (is_production env) (get env (codes "CLIENT_IP_SOURCE")) >>= λ source.
        parse_quota env (codes "RATE_LIMIT_AUTH_MAX_REQUESTS", 10)
          (codes "RATE_LIMIT_AUTH_WINDOW_SECONDS", 60)
        >>= λ auth.
            parse_quota env (codes "RATE_LIMIT_API_MAX_REQUESTS", 120)
              (codes "RATE_LIMIT_API_WINDOW_SECONDS", 60)
            >>= λ api. ok (record {
              enabled = enabled;
              client_ip_source = source;
              namespace =
                  or_default (get env (codes "RATE_LIMIT_NAMESPACE"))
                    (env.app_name ++ codes ":ratelimit");
              auth = auth;
              api = api;
            }))

pub record RealtimeSettings : Type 0 where
  pub max_connections : ℕ
  pub ticket_ttl_seconds : ℕ

abbrev pub max_ticket_ttl_seconds : ℕ
max_ticket_ttl_seconds = 300

-- `RealtimeSettings::from_env`.
unfoldable pub realtime_settings : Env → Result ConfigError RealtimeSettings
unfolding parse parse_unsigned
realtime_settings env =
    parse (parse_unsigned 64) env (codes "REALTIME_MAX_CONNECTIONS") 100 >>= λ max_connections.
    ensure (not (max_connections == 0))
      (validation (codes "REALTIME_MAX_CONNECTIONS must be greater than zero"))
    >> (parse (parse_unsigned 64) env (codes "REALTIME_TICKET_TTL_SECONDS") 30 >>= λ ttl.
        ensure (leb 1 ttl && leb ttl max_ticket_ttl_seconds)
          (validation (codes "REALTIME_TICKET_TTL_SECONDS must be between 1 and 300 seconds"))
        >> ok (record { max_connections = max_connections; ticket_ttl_seconds = ttl }))

abbrev pub IsQuotaSound : RateLimitQuota → Type 0
IsQuotaSound q = (1 ≤ q.max_requests) × (1 ≤ q.window_seconds) × (q.window_seconds ≤ 86400)

parse_quota-IsQuotaSound : (env : Env) (m w : Text × ℕ) → Ensures IsQuotaSound (parse_quota env m w)
unfolding parse_quota
parse_quota-IsQuotaSound env (mk, md) (wk, wd) = Ensures-bind _ _ _ λ max _.
    Ensures-guard _ _ _ _ λ some_allowed.
      Ensures-bind _ _ _
        λ window _. Ensures-guard _ _ _ _ λ bounded. Ensures-ok _ _ _ refl (ground arith)

pub IsLimiterSound : Env → RateLimitSettings → Type 0
IsLimiterSound env s =
    (is_production env ≡ true → s.enabled ≡ true) × IsQuotaSound s.auth × IsQuotaSound s.api

rate_limit_settings_lem : (env : Env) → Ensures (IsLimiterSound env) (rate_limit_settings env)
unfolding rate_limit_settings IsLimiterSound
rate_limit_settings_lem env = Ensures-bind _ _ _ λ enabled _. Ensures-guard _ _ _ _ λ kept.
    Ensures-bind _ _ _ λ source _. Ensures-bind _ _ _ λ auth a. Ensures-bind _ _ _ λ api b.
      Ensures-ok _ _ _ refl (
        (λ p. ground arith),
        Ensures-elim _ (parse_quota-IsQuotaSound env _ _) a,
        Ensures-elim _ (parse_quota-IsQuotaSound env _ _) b,
      )

-- Rate-limit settings that load have the limiter enabled in production, and each quota allows at
-- least one request in a window of 1 to 86400 seconds.
pub rate_limit_settings-IsLimiterSound :
    (env : Env) (s : RateLimitSettings) → rate_limit_settings env ≡ ok s → IsLimiterSound env s
rate_limit_settings-IsLimiterSound env s =
    Ensures-elim (IsLimiterSound env) (rate_limit_settings_lem env)

pub IsRealtimeSound : RealtimeSettings → Type 0
IsRealtimeSound s =
    (1 ≤ s.max_connections) × (1 ≤ s.ticket_ttl_seconds) × (s.ticket_ttl_seconds ≤ 300)

realtime_settings_lem : (env : Env) → Ensures IsRealtimeSound (realtime_settings env)
unfolding realtime_settings IsRealtimeSound
realtime_settings_lem env = Ensures-bind _ _ _ λ connections _.
    Ensures-guard _ _ _ _ λ some_allowed.
      Ensures-bind _ _ _
        λ ttl _. Ensures-guard _ _ _ _ λ bounded. Ensures-ok _ _ _ refl (ground arith)

-- Realtime settings that load admit at least one connection and issue tickets of 1 to 300 seconds.
pub realtime_settings-IsRealtimeSound :
    (env : Env) (s : RealtimeSettings) → realtime_settings env ≡ ok s → IsRealtimeSound s
realtime_settings-IsRealtimeSound env s = Ensures-elim IsRealtimeSound (realtime_settings_lem env)
