-- ===== src/Bootstrap.antt =====
-- src/bootstrap.rs: starting and stopping the server. What the process asks of the libraries and of
-- the system is a list of steps, in order; which of them succeed is a parameter. A step that the
-- source follows with `?` ends the run when it fails.
pub mod Order
pub mod Means
pub mod Ends
pub mod Pruning
use luxor.Base.{
  ℕ, Bool, true, false, not, ◌&&◌, ◌||◌, Option, none, some, List, [], ◌∷◌, ◌++◌, map, Text, codes,
  text_eq, if◌then◌else◌, Result, ok, err,
}
use luxor.Config.Kafka.{KafkaSettings}
use luxor.Config.Sections.{DatabaseSettings}
use luxor.Config.Loaded.{Config}

pub data Step : Type 0 where
  install_crypto_provider : Step
  load_config : Step
  init_observability : Step
  bind : Step
  connect : Text → Step
  start_dev_postgres : Step
  connect_dev_postgres : Step
  migrate : Step
  open_redis : Text → Step
  connect_redis : Text → Step
  connect_publisher : KafkaSettings → Step
  prewarm : Step
  build_state : Step
  spawn : Text → Step
  connect_consumer : KafkaSettings → Step
  local_address : Step
  open_frontend : Step
  serve_requests : Step
  shutdown_tasks : ℕ → Step
  stop_dev_postgres : Step
  drain : Step
  shutdown_observability : Step
  invalid_configuration : Step
  missing_database_url : Step
  unknown_command : Text → Step

-- What can only fail.
abbrev pub is_refusal : Step → Bool
is_refusal invalid_configuration = true
is_refusal missing_database_url = true
is_refusal (unknown_command other) = true
is_refusal _ = false

-- Whether the source's `?` (or a `bail!`) stands behind the step.
unfoldable pub is_fallible : Step → Bool
is_fallible prewarm = false
is_fallible (spawn name) = false
is_fallible open_frontend = false
is_fallible (shutdown_tasks grace) = false
is_fallible stop_dev_postgres = false
is_fallible drain = false
is_fallible shutdown_observability = false
is_fallible _ = true

abbrev pub task_shutdown_grace : ℕ
task_shutdown_grace = 5000

-- What an application adds: whether it handles events, and its own tasks.
pub record Application : Type 0 where
  pub handles_events : Bool
  pub tasks : List Text

abbrev pub migrate_if : Bool → List Step
migrate_if true = migrate ∷ []
migrate_if false = []

-- `connect_database`.
unfoldable pub connect_database : Option Text → Bool → List Step
connect_database (some url) auto_migrate = connect url ∷ migrate_if auto_migrate
connect_database none auto_migrate = start_dev_postgres ∷ connect_dev_postgres ∷ migrate ∷ []

unfoldable pub connect_shared_state : Option Text → List Step
connect_shared_state (some url) = open_redis url ∷ connect_redis url ∷ []
connect_shared_state none = []

unfoldable pub event_publisher : Option KafkaSettings → List Step
event_publisher (some settings) = connect_publisher settings ∷ []
event_publisher none = []

unfoldable pub event_source : Option KafkaSettings → List Step
event_source (some settings) = connect_consumer settings ∷ []
event_source none = []

-- The consumer is started only when the application handles events.
unfoldable pub start_consumer : Bool → Option KafkaSettings → List Step
unfolding event_source
start_consumer true kafka = event_source kafka ++ spawn (codes "event consumer") ∷ []
start_consumer false kafka = []

abbrev pub frontend : Bool → List Step
frontend true = open_frontend ∷ []
frontend false = []

abbrev pub stop_database : Option Text → List Step
stop_database (some url) = []
stop_database none = stop_dev_postgres ∷ []

module _ {Ip : Type 0} where
  -- `serve` from the consumer on.
  unfoldable pub serve_tasks : Config Ip → Application → List Step
  unfolding start_consumer
  serve_tasks config app =
      start_consumer app.handles_events config.kafka
      ++ (map spawn app.tasks
          ++ local_address
            ∷ (frontend config.http.open_browser
                ++ serve_requests
                  ∷ shutdown_tasks task_shutdown_grace
                  ∷ (stop_database config.database.url ++ drain ∷ shutdown_observability ∷ [])))

  -- `serve`, from the loaded configuration on.
  unfoldable pub serve : Config Ip → Application → List Step
  unfolding connect_database connect_shared_state event_publisher serve_tasks
  serve config app =
      init_observability
      ∷ bind
      ∷ (connect_database config.database.url config.database.auto_migrate
          ++ (connect_shared_state config.redis_url
              ++ (event_publisher config.kafka
                  ++ prewarm
                    ∷ build_state
                    ∷ spawn (codes "session pruner")
                    ∷ serve_tasks config app)))

  -- What `Config::from_env` gives, if it gives one.
  unfoldable pub serve_loaded : Option (Config Ip) → Application → List Step
  unfolding serve
  serve_loaded none app = invalid_configuration ∷ []
  serve_loaded (some config) app = load_config ∷ serve config app

-- The command `migrate`, for the variable of the environment.
unfoldable pub migrate_command : Option Text → List Step
migrate_command none = missing_database_url ∷ []
migrate_command (some url) = connect url ∷ migrate ∷ []

-- `execute` without an argument, and with one.
unfoldable pub execute :
    {Ip : Type 0} → Option (Config Ip) → Option Text → Application → Option Text → List Step
unfolding serve_loaded migrate_command text_eq
execute loaded database_url app none = install_crypto_provider ∷ serve_loaded loaded app
execute loaded database_url app (some command) =
    install_crypto_provider
    ∷ (if text_eq command (codes "migrate")
        then migrate_command database_url
        else unknown_command command ∷ [])

unfoldable pub goes_on : (Step → Bool) → Step → Bool
unfolding is_fallible
goes_on succeeds step = not (is_fallible step) || (succeeds step && not (is_refusal step))

-- The steps that are taken, up to and with the first that ends the run, and the process's success.
unfoldable pub run : (Step → Bool) → List Step → List Step × Bool
unfolding goes_on
run succeeds [] = ([], true)
run succeeds (step ∷ steps) =
    let (taken, success) = run succeeds steps in
    if goes_on succeeds step then (step ∷ taken, success) else (step ∷ [], false)
