-- ===== src/Config/Loaded.antt =====
-- src/config.rs: `Config::from_map`, which loads every section or fails.
use luxor.Base.{
  ◌≡◌, refl, Bool, true, false, Option, none, some, [], ◌∷◌, Text, codes, Result, ok, ◌>>=◌, ◌>>◌,
  All, Ensures, Ensures-elim, Ensures-bind, Ensures-seq, Ensures-ok, Ensures-map,
}
use luxor.Base.Map.{Map}
use luxor.Config.{
  ConfigError, Environment, Env, new_env, is_production, is_none, Url, infrastructure_url,
}
use luxor.Config.Features.{
  Build, feature_settings, refuse_excluded_features, IsHonoured,
  refuse_excluded_features-IsHonoured,
}
use luxor.Config.Credentials.{AuthSettings, auth_settings, IsSound, auth_settings-IsSound}
use luxor.Config.Quotas.{
  RateLimitSettings, rate_limit_settings, IsLimiterSound, rate_limit_settings-IsLimiterSound,
  RealtimeSettings, realtime_settings, IsRealtimeSound, realtime_settings-IsRealtimeSound,
}
use luxor.Config.Listener.{HttpSettings, http_settings}
use luxor.Config.Origins.{IsPolicySound, http_settings-IsPolicySound}
use luxor.Config.Kafka.{KafkaSettings, kafka_from_env}
use luxor.Config.Brokers.{IsKafkaSound, kafka_from_env-IsKafkaSound, absent-IsKafkaSound}
use luxor.Config.Sections.{
  DatabaseSettings, database_settings, IsDatabaseSound, database_settings_lem, CacheSettings,
  cache_settings, QueueSettings, queue_settings, TelemetrySettings, telemetry_settings,
  infrastructure_url-Ensures,
}

-- The application's own section has no settings; a field that a build leaves out is `none`.
pub record Config (Ip : Type 0) : Type 0 where
  pub app_name : Text
  pub environment : Environment
  pub http : HttpSettings Ip
  pub database : DatabaseSettings
  pub redis_url : Option Text
  pub auth : AuthSettings
  pub cache : CacheSettings
  pub queue : QueueSettings
  pub rate_limit : RateLimitSettings
  pub realtime : Option RealtimeSettings
  pub kafka : Option KafkaSettings
  pub telemetry : TelemetrySettings

module _ {Ip : Type 0} (url_parse : Text → Result Text Url) (parse_ip : Text → Result Text Ip)
    (parse_dsn : Text → Result Text (Unit {0})) (build : Build) where
  unfoldable pub redis_of : Bool → Env → Result ConfigError (Option Text)
  unfolding infrastructure_url
  redis_of true env =
      infrastructure_url url_parse env (codes "REDIS_URL") (codes "redis" ∷ codes "rediss" ∷ [])
  redis_of false env = ok none

  unfoldable pub realtime_of : Bool → Env → Result ConfigError (Option RealtimeSettings)
  unfolding realtime_settings
  realtime_of true env = realtime_settings env >>= λ s. ok (some s)
  realtime_of false env = ok none

  unfoldable pub kafka_of : Bool → Env → Result ConfigError (Option KafkaSettings)
  unfolding kafka_from_env
  kafka_of true env = kafka_from_env env
  kafka_of false env = ok none

  -- The sections, in the order in which they are read.
  unfoldable pub sections : Env → Result ConfigError (Config Ip)
  unfolding http_settings database_settings redis_of auth_settings rate_limit_settings realtime_of
      kafka_of telemetry_settings cache_settings queue_settings
  sections env = http_settings url_parse parse_ip env >>= λ http.
      database_settings url_parse env >>= λ database. redis_of build.redis env >>= λ redis_url.
      auth_settings url_parse env >>= λ auth. rate_limit_settings env >>= λ rate_limit.
      realtime_of build.realtime env >>= λ realtime. kafka_of build.kafka env >>= λ kafka.
      telemetry_settings url_parse parse_dsn build env >>= λ telemetry. ok (record {
        app_name = env.app_name;
        environment = env.environment;
        http = http;
        database = database;
        redis_url = redis_url;
        auth = auth;
        cache = cache_settings env;
        queue = queue_settings env;
        rate_limit = rate_limit;
        realtime = realtime;
        kafka = kafka;
        telemetry = telemetry;
      })

  unfoldable pub from_map : Map Text → Result ConfigError (Config Ip)
  unfolding new_env refuse_excluded_features sections
  from_map values = new_env values >>= λ env. (refuse_excluded_features build env >> sections env)

  abbrev IsOptional : Option RealtimeSettings → Type 0
  IsOptional none = Unit
  IsOptional (some s) = IsRealtimeSound s

  -- What each section that loads is worth.
  abbrev AreSectionsSound : Env → Config Ip → Type 0
  AreSectionsSound env config =
      IsPolicySound url_parse parse_ip env config.http
      × IsDatabaseSound env config.database
      × (build.redis ≡ true → is_production env ≡ true → is_none config.redis_url ≡ false)
      × IsSound url_parse env config.auth
      × IsLimiterSound env config.rate_limit
      × IsOptional config.realtime
      × IsKafkaSound config.kafka

  redis_of-Ensures :
      (included : Bool) (env : Env)
      → Ensures
          (λ url. included ≡ true → is_production env ≡ true → is_none url ≡ false)
          (redis_of included env)
  unfolding redis_of Ensures
  redis_of-Ensures true env =
      Ensures-map (λ url. is_production env ≡ true → is_none url ≡ false)
        (λ url. true ≡ true → is_production env ≡ true → is_none url ≡ false)
        (infrastructure_url url_parse env (codes "REDIS_URL") (codes "redis" ∷ codes "rediss" ∷ []))
        (infrastructure_url-Ensures url_parse env (codes "REDIS_URL")
          (codes "redis" ∷ codes "rediss" ∷ []))
        λ url deployed included. deployed
  redis_of-Ensures false env = λ included. cc

  realtime_of-Ensures :
      (included : Bool) (env : Env) → Ensures IsOptional (realtime_of included env)
  unfolding realtime_of Ensures
  realtime_of-Ensures true env =
      Ensures-bind _ (realtime_settings env) _ λ s e. realtime_settings-IsRealtimeSound env s e
  realtime_of-Ensures false env = tt

  kafka_of-Ensures : (included : Bool) (env : Env) → Ensures IsKafkaSound (kafka_of included env)
  unfolding kafka_of Ensures
  kafka_of-Ensures true env = kafka_from_env-IsKafkaSound env
  kafka_of-Ensures false env = absent-IsKafkaSound

  sections-AreSectionsSound :
      (env : Env)
      → Ensures
          (λ config. (config.environment ≡ env.environment) × AreSectionsSound env config)
          (sections env)
  unfolding sections
  sections-AreSectionsSound env = Ensures-bind _ _ _ λ http a. Ensures-bind _ _ _ λ database b.
      Ensures-bind _ _ _ λ redis_url c. Ensures-bind _ _ _ λ auth d.
        Ensures-bind _ _ _ λ rate_limit e. Ensures-bind _ _ _ λ realtime f.
          Ensures-bind _ _ _ λ kafka g. Ensures-bind _ _ _ λ telemetry h. Ensures-ok _ _ _ refl (
            refl,
            (
              http_settings-IsPolicySound url_parse parse_ip env http a,
              Ensures-elim _ (database_settings_lem url_parse env) b,
              Ensures-elim _ (redis_of-Ensures build.redis env) c,
              auth_settings-IsSound url_parse env auth d,
              rate_limit_settings-IsLimiterSound env rate_limit e,
              Ensures-elim _ (realtime_of-Ensures build.realtime env) f,
              Ensures-elim _ (kafka_of-Ensures build.kafka env) g,
            ),
          )

  -- What a configuration that loads is worth: the sections, in an environment that sets nothing of
  -- what the build leaves out.
  pub IsLoaded : Map Text → Config Ip → Type 0
  IsLoaded values config =
      (env : Env) × (new_env values ≡ ok env)
      × All (IsHonoured env) (feature_settings build)
      × (config.environment ≡ env.environment)
      × AreSectionsSound env config

  from_map_lem : (values : Map Text) → Ensures (IsLoaded values) (from_map values)
  unfolding from_map IsLoaded
  from_map_lem values = Ensures-bind _ _ _ λ env read.
      Ensures-seq _ (refuse_excluded_features build env) _ λ clear.
        Ensures-map _ _ _ (sections-AreSectionsSound env) λ config (same, sound).
          (env, read, refuse_excluded_features-IsHonoured build env clear, same, sound)

  -- A configuration that loads is one of an environment that sets nothing of what the build leaves
  -- out, and each of its sections keeps its rule: origins and HTTPS, an external database that is
  -- not migrated at startup in production, Redis in production where it is built, secrets and
  -- lifetimes, quotas, sockets, and brokers with credentials exactly under a protocol that sends
  -- them.
  pub from_map-IsLoaded :
      (values : Map Text) (config : Config Ip)
      → from_map values ≡ ok config
      → IsLoaded values config
  from_map-IsLoaded values config = Ensures-elim (IsLoaded values) (from_map_lem values)
