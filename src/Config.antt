-- ===== src/Config.antt =====
-- src/config.rs: the environment that every section of the configuration reads. `Url::parse` is a
-- library's and comes as a parameter, with the parts that its result shows.
pub mod Features
pub mod Credentials
pub mod Quotas
pub mod Listener
pub mod Origins
pub mod Kafka
pub mod Brokers
pub mod Sections
pub mod Loaded
use luxor.Base.{
  ℕ, Bool, true, false, not, ◌&&◌, ◌||◌, Option, none, some, List, [], ◌∷◌, ◌++◌, Text, codes,
  text_eq, len, is_empty, all, any, find, is_ascii_alphanumeric, to_ascii_lowercase, ltb, leb, ◌==◌,
  if◌then◌else◌, Result, ok, err, ◌>>=◌, ◌>>◌, ensure, map_err, ok_or,
}
use luxor.Base.Map.{Map, lookup, keep}

pub data Environment : Type 0 where
  development test production : Environment

pub data ConfigError : Type 0 where
  missing : Text → ConfigError
  invalid : Text → Text → ConfigError
  validation : Text → ConfigError

abbrev pub is_production_environment : Environment → Bool
is_production_environment production = true
is_production_environment _ = false

unfoldable pub environment_from_str : Text → Result ConfigError Environment
unfolding to_ascii_lowercase text_eq
environment_from_str value =
    let lower = to_ascii_lowercase value in
    if text_eq lower (codes "development") || text_eq lower (codes "dev")
    then ok development
    else if text_eq lower (codes "test")
    then ok test
    else if text_eq lower (codes "production") || text_eq lower (codes "prod")
    then ok production
    else err (invalid (codes "APP_ENV") value)

pub record Env : Type 0 where
  pub values : Map Text
  pub environment : Environment
  pub app_name : Text

-- An empty value reads as unset.
unfoldable pub get_value : Map Text → Text → Option Text
unfolding lookup
get_value values key = keep (λ v. not (is_empty v)) (lookup key values)

abbrev pub or_default : {A : Type 0} → Option A → A → A
or_default none default = default
or_default (some a) default = a

abbrev pub is_name_character : ℕ → Bool
is_name_character c = is_ascii_alphanumeric c || c == b'-' || c == b'_'

abbrev pub app_name_message : Text
app_name_message = codes "expected 1-64 characters of letters, digits, hyphens, or underscores"

unfoldable pub parse_app_name : Text → Result ConfigError Text
unfolding len
parse_app_name value =
    ensure (leb 1 (len value) && leb (len value) 64 && all is_name_character value)
      (invalid (codes "APP_NAME") app_name_message)
    >> ok value

unfoldable pub new_env : Map Text → Result ConfigError Env
unfolding get_value environment_from_str parse_app_name
new_env values =
    environment_from_str (or_default (get_value values (codes "APP_ENV")) (codes "development"))
    >>= λ environment.
        parse_app_name (or_default (get_value values (codes "APP_NAME")) (codes "luxor"))
        >>= λ app_name.
            ok (record { values = values; environment = environment; app_name = app_name })

abbrev pub is_production : Env → Bool
is_production env = is_production_environment env.environment

unfoldable pub get : Env → Text → Option Text
unfolding get_value
get env key = get_value env.values key

-- `Env::parse`, by the type's `FromStr`.
unfoldable pub parse : {T : Type 0} → (Text → Result Text T) → Env → Text → T → Result ConfigError T
unfolding get
parse from_str env key default = elim (get env key) [
  | some value ↦ map_err (invalid key) (from_str value)
  | none ↦ ok default
]

unfoldable pub required_or_dev : Env → Text → Text → Result ConfigError Text
unfolding get
required_or_dev env key development_default = elim (get env key) [
  | some value ↦ ok value
  | none ↦ if is_production env then err (missing key) else ok development_default
]

-- The accessors of a parsed URL.
pub record Url : Type 0 where
  pub scheme : Text
  pub host : Option Text
  pub username : Text
  pub password : Option Text
  pub path : Text
  pub query : Option Text
  pub fragment : Option Text

abbrev pub is_none : {A : Type 0} → Option A → Bool
is_none none = true
is_none (some a) = false

-- `join(", ")`.
unfoldable pub join : List Text → Text
join [] = []
join (s ∷ []) = s
join (s ∷ t ∷ rest) = s ++ codes ", " ++ join (t ∷ rest)

abbrev pub is_origin_only : Url → Bool
is_origin_only url =
    not (is_none url.host)
    && is_empty url.username
    && is_none url.password
    && text_eq url.path (codes "/")
    && is_none url.query
    && is_none url.fragment

module _ (url_parse : Text → Result Text Url) where
  unfoldable pub parse_url : Text → Text → List Text → Result ConfigError Url
  unfolding join text_eq
  parse_url key value schemes = map_err (invalid key) (url_parse value) >>= λ url.
      ensure (any (text_eq url.scheme) schemes)
        (invalid key (codes "expected one of these URL schemes: " ++ join schemes))
      >> ok url

  unfoldable pub validate_origin : Text → Text → Bool → Result ConfigError (Unit {0})
  unfolding parse_url
  validate_origin key origin in_production =
      parse_url key origin (codes "http" ∷ codes "https" ∷ []) >>= λ url.
      ensure (not (in_production && not (text_eq url.scheme (codes "https"))))
        (invalid key (origin ++ codes " must use https in production"))
      >> ensure (is_origin_only url) (invalid key (origin ++ codes " is not an HTTP(S) origin"))

  unfoldable pub infrastructure_url : Env → Text → List Text → Result ConfigError (Option Text)
  unfolding get parse_url
  infrastructure_url env key schemes = elim (get env key) [
    | some value ↦ parse_url key value schemes >>= λ url. ok (some value)
    | none ↦ if is_production env then err (missing key) else ok none
  ]
