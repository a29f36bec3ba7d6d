-- ===== src/Config/Sections.antt =====
-- The sections of the configuration that src/db.rs, src/cache.rs, src/queue.rs and
-- src/observability.rs read. Reading a Sentry DSN is a library's and comes as a parameter.
use luxor.Base.{
  ◌≡◌, refl, inl, inr, Bool, true, false, not, ◌&&◌, Option, none, some, List, [], ◌∷◌, ◌++◌, Text,
  codes, Result, ok, ◌>>=◌, ◌>>◌, ensure, map_err, arith, Ensures, Ensures-bind, Ensures-guard,
  Ensures-ok, Ensures-elim, Option-cases, Bool-cases,
}
use luxor.Base.Numbers.{parse_bool}
use luxor.Config.{
  ConfigError, invalid, validation, Env, get, is_production, parse, or_default, is_none, Url,
  parse_url, infrastructure_url,
}
use luxor.Config.Features.{Build}

pub record DatabaseSettings : Type 0 where
  pub url : Option Text
  pub auto_migrate : Bool

pub record CacheSettings : Type 0 where
  pub namespace : Text

pub record QueueSettings : Type 0 where
  pub key : Text

unfoldable pub cache_settings : Env → CacheSettings
unfolding get
cache_settings env = record {
  namespace = or_default (get env (codes "CACHE_NAMESPACE")) (env.app_name ++ codes ":cache");
}

unfoldable pub queue_settings : Env → QueueSettings
unfolding get
queue_settings env = record {
  key = or_default (get env (codes "QUEUE_KEY")) (env.app_name ++ codes ":queue:jobs");
}

-- A field that a build leaves out is `none`.
pub record TelemetrySettings : Type 0 where
  pub otlp_endpoint : Option Text
  pub service_name : Option Text
  pub sentry_dsn : Option Text

module _ (url_parse : Text → Result Text Url) where
  unfoldable pub database_settings : Env → Result ConfigError DatabaseSettings
  unfolding infrastructure_url parse parse_bool
  database_settings env =
      infrastructure_url url_parse env (codes "DATABASE_URL")
        (codes "postgres" ∷ codes "postgresql" ∷ [])
      >>= λ url.
          parse parse_bool env (codes "AUTO_MIGRATE") (not (is_production env)) >>= λ auto_migrate.
          ensure (not (is_production env && auto_migrate))
            (validation (codes "AUTO_MIGRATE cannot be enabled in production"))
          >> ok (record { url = url; auto_migrate = auto_migrate })

  abbrev checked_endpoint : Option Text → Result ConfigError (Unit {0})
  unfolding parse_url
  checked_endpoint none = ok tt
  checked_endpoint (some endpoint) =
      parse_url url_parse (codes "OTEL_EXPORTER_OTLP_ENDPOINT") endpoint
        (codes "http" ∷ codes "https" ∷ [])
      >>= λ url. ok tt

abbrev checked_dsn : (Text → Result Text (Unit {0})) → Option Text → Result ConfigError (Unit {0})
checked_dsn parse_dsn none = ok tt
checked_dsn parse_dsn (some dsn) = map_err (invalid (codes "SENTRY_DSN")) (parse_dsn dsn)

-- What a build with the feature reads.
abbrev included : Bool → Option Text → Option Text
included true value = value
included false value = none

unfoldable pub telemetry_settings :
    (Text → Result Text Url)
    → (Text → Result Text (Unit {0}))
    → Build
    → Env
    → Result ConfigError TelemetrySettings
unfolding get parse_url
telemetry_settings url_parse parse_dsn build env =
    let endpoint = included build.otel (get env (codes "OTEL_EXPORTER_OTLP_ENDPOINT")) in
    let dsn = included build.sentry (get env (codes "SENTRY_DSN")) in
    let service = or_default (get env (codes "OTEL_SERVICE_NAME")) env.app_name in
    checked_endpoint url_parse endpoint
    >> checked_dsn parse_dsn dsn
    >> ok (record {
      otlp_endpoint = endpoint;
      service_name = included build.otel (some service);
      sentry_dsn = dsn;
    })

-- Production names its database and does not migrate it at startup.
abbrev pub IsDatabaseSound : Env → DatabaseSettings → Type 0
IsDatabaseSound env s =
    is_production env ≡ true → (is_none s.url ≡ false) × (s.auto_migrate ≡ false)

unmigrated : (p m : Bool) → not (p && m) ≡ true → p ≡ true → m ≡ false
unmigrated p m h e = ground arith

module _ (url_parse : Text → Result Text Url) where
  -- A URL that production needs is there.
  pub infrastructure_url-Ensures :
      (env : Env) (key : Text) (schemes : List Text)
      → Ensures
          (λ url. is_production env ≡ true → is_none url ≡ false)
          (infrastructure_url url_parse env key schemes)
  unfolding infrastructure_url Ensures
  infrastructure_url-Ensures env key schemes = elim (Option-cases (get env key)) [
    | inr (value, set) ↦
        rw (set, infrastructure_url)
          (Ensures-bind _ (parse_url url_parse key value schemes) _ λ url e p. refl)
    | inl unset ↦ elim (Bool-cases (is_production env)) [
      | inl deployed ↦ rw (unset, infrastructure_url, deployed) tt
      | inr local ↦ rw (unset, infrastructure_url, local) (λ p. cc)
    ]
  ]

  pub database_settings_lem :
      (env : Env) → Ensures (IsDatabaseSound env) (database_settings url_parse env)
  unfolding database_settings
  database_settings_lem env = Ensures-bind _ _ _ λ url found. Ensures-bind _ _ _ λ auto_migrate _.
      Ensures-guard _ _ _ _ λ kept. Ensures-ok _ _ _ refl λ deployed. (
        Ensures-elim _
            (infrastructure_url-Ensures env (codes "DATABASE_URL")
              (codes "postgres" ∷ codes "postgresql" ∷ []))
            found deployed,
        unmigrated (is_production env) auto_migrate kept deployed,
      )
