-- ===== src/Config/Features.antt =====
-- src/config.rs: `refuse_excluded_features`, the features that a build leaves out.
use luxor.Base.{
  ◌≡◌, refl, ◌⊎◌, inl, inr, Bool, true, false, not, Option, none, some, List, [], ◌∷◌, ◌++◌, Text,
  codes, if◌then◌else◌, Result, ok, err, ◌>>◌, find, All, seq_ok, arith,
}
use luxor.Config.{ConfigError, validation, Env, get, is_none}

-- A feature, whether the build includes it, and the settings it owns.
abbrev pub FeatureSettings : Type 0
FeatureSettings = List (Text × Bool × List Text)

abbrev pub kafka_settings : List Text
kafka_settings =
    codes "KAFKA_BROKERS"
    ∷ codes "KAFKA_TOPIC"
    ∷ codes "KAFKA_CONSUMER_GROUP"
    ∷ codes "KAFKA_CLIENT_ID"
    ∷ codes "KAFKA_SECURITY_PROTOCOL"
    ∷ codes "KAFKA_SASL_MECHANISM"
    ∷ codes "KAFKA_SASL_USERNAME"
    ∷ codes "KAFKA_SASL_PASSWORD"
    ∷ codes "KAFKA_DELIVERY_TIMEOUT_SECONDS"
    ∷ []

-- What `cfg!` says of each feature.
pub record Build : Type 0 where
  pub redis : Bool
  pub kafka : Bool
  pub otel : Bool
  pub sentry : Bool
  pub realtime : Bool

abbrev pub feature_settings : Build → FeatureSettings
feature_settings build =
    (
      codes "redis",
      build.redis,
      codes "REDIS_URL"
          ∷ codes "CACHE_NAMESPACE"
          ∷ codes "QUEUE_KEY"
          ∷ codes "RATE_LIMIT_NAMESPACE"
          ∷ [],
    )
    ∷ (codes "kafka", build.kafka, kafka_settings)
    ∷ (
      codes "otel",
      build.otel,
      codes "OTEL_EXPORTER_OTLP_ENDPOINT" ∷ codes "OTEL_SERVICE_NAME" ∷ [],
    )
    ∷ (codes "sentry", build.sentry, codes "SENTRY_DSN" ∷ [])
    ∷ (
      codes "realtime",
      build.realtime,
      codes "REALTIME_MAX_CONNECTIONS" ∷ codes "REALTIME_TICKET_TTL_SECONDS" ∷ [],
    )
    ∷ []

abbrev pub is_set : Env → Text → Bool
is_set env key = not (is_none (get env key))

abbrev excluded : Text → Text → ConfigError
excluded feature key =
    validation
      (key ++ codes " is set, but this build excludes the `" ++ feature ++ codes "` feature")

abbrev none_found : Text → Option Text → Result ConfigError (Unit {0})
none_found feature none = ok tt
none_found feature (some key) = err (excluded feature key)

-- The loop, over any table.
unfoldable pub refuse_features : Env → FeatureSettings → Result ConfigError (Unit {0})
unfolding find
refuse_features env [] = ok tt
refuse_features env ((feature, included, keys) ∷ rest) =
    if included
    then refuse_features env rest
    else none_found feature (find (is_set env) keys) >> refuse_features env rest

unfoldable pub refuse_excluded_features : Build → Env → Result ConfigError (Unit {0})
unfolding refuse_features
refuse_excluded_features build env = refuse_features env (feature_settings build)

-- No setting of an excluded feature is set.
abbrev pub IsHonoured : Env → Text × Bool × List Text → Type 0
IsHonoured env (feature, included, keys) = (included ≡ true) ⊎ All (λ key. get env key ≡ none) keys

is_set_lem : (o : Option Text) → not (is_none o) ≡ false → o ≡ none
is_set_lem none h = refl
is_set_lem (some v) h = cc

find_unset :
    (env : Env) (keys : List Text)
    → find (is_set env) keys ≡ none
    → All (λ key. get env key ≡ none) keys
unfolding find
find_unset env [] h = tt
find_unset env (key ∷ keys) h =
    let unset : is_set env key ≡ false = ground arith in
    (is_set_lem (get env key) unset, find_unset env keys (rw unset at h))

found_none : (feature : Text) (o : Option Text) → none_found feature o ≡ ok tt → o ≡ none
found_none feature none h = refl
found_none feature (some key) h = cc

refuse_features-IsHonoured :
    (env : Env) (table : FeatureSettings)
    → refuse_features env table ≡ ok tt
    → All (IsHonoured env) table
unfolding refuse_features
refuse_features-IsHonoured env [] h = tt
refuse_features-IsHonoured env ((feature, true, keys) ∷ rest) h =
    (inl refl, refuse_features-IsHonoured env rest h)
refuse_features-IsHonoured env ((feature, false, keys) ∷ rest) h =
    let (clear, later) = seq_ok (none_found feature (find (is_set env) keys)) _ h in
    (
      inr (find_unset env keys (found_none feature _ clear)),
      refuse_features-IsHonoured env rest later,
    )

-- A configuration that is not refused sets nothing that belongs to a feature the build excludes.
pub refuse_excluded_features-IsHonoured :
    (build : Build) (env : Env)
    → refuse_excluded_features build env ≡ ok tt
    → All (IsHonoured env) (feature_settings build)
unfolding refuse_excluded_features
refuse_excluded_features-IsHonoured build env h =
    refuse_features-IsHonoured env (feature_settings build) h
