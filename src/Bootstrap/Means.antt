-- ===== src/Bootstrap/Means.antt =====
-- src/bootstrap.rs: the backends of a run, next to the configuration.
use luxor.Base.{
  ◌≡◌, refl, ◌⊎◌, inl, inr, Bool, true, false, Option, none, some, List, [], ◌∷◌, map, All,
  All-append, Bool-cases, Text,
}
use luxor.Config.Kafka.{KafkaSettings}
use luxor.Config.Loaded.{Config}
use luxor.Bootstrap.{
  Step, connect, start_dev_postgres, connect_dev_postgres, migrate, open_redis, connect_redis,
  connect_publisher, spawn, connect_consumer, open_frontend, stop_dev_postgres, Application,
  connect_database, connect_shared_state, event_publisher, event_source, start_consumer, frontend,
  stop_database, serve, serve_tasks, serve_loaded, execute, goes_on, run,
}

run-All :
    (P : Step → Type 0) (succeeds : Step → Bool) (steps : List Step)
    → All P steps
    → All P (run succeeds steps).0
unfolding run
run-All P succeeds [] h = tt
run-All P succeeds (step ∷ steps) (p, h) = elim (Bool-cases (goes_on succeeds step)) [
  | inl on ↦ rw on (p, run-All P succeeds steps h)
  | inr ended ↦ rw ended (p, tt)
]

module _ {Ip : Type 0} (config : Config Ip) (app : Application) where
  -- What the configuration and the application have to say for a step to be taken.
  unfoldable pub IsMeant : Step → Type 0
  IsMeant (connect url) = config.database.url ≡ some url
  IsMeant start_dev_postgres = config.database.url ≡ none
  IsMeant connect_dev_postgres = config.database.url ≡ none
  IsMeant stop_dev_postgres = config.database.url ≡ none
  IsMeant migrate = (config.database.auto_migrate ≡ true) ⊎ (config.database.url ≡ none)
  IsMeant (open_redis url) = config.redis_url ≡ some url
  IsMeant (connect_redis url) = config.redis_url ≡ some url
  IsMeant (connect_publisher settings) = config.kafka ≡ some settings
  IsMeant (connect_consumer settings) = (config.kafka ≡ some settings) × (app.handles_events ≡ true)
  IsMeant open_frontend = config.http.open_browser ≡ true
  IsMeant _ = Unit

  connect_database-Means :
      (url : Option Text) (auto_migrate : Bool)
      → config.database.url ≡ url
      → config.database.auto_migrate ≡ auto_migrate
      → All IsMeant (connect_database url auto_migrate)
  unfolding connect_database IsMeant
  connect_database-Means (some url) true u a = (u, (inl a, tt))
  connect_database-Means (some url) false u a = (u, tt)
  connect_database-Means none auto_migrate u a = (u, (u, (inr u, tt)))

  connect_shared_state-Means :
      (url : Option Text) → config.redis_url ≡ url → All IsMeant (connect_shared_state url)
  unfolding connect_shared_state IsMeant
  connect_shared_state-Means (some url) r = (r, (r, tt))
  connect_shared_state-Means none r = tt

  event_publisher-Means :
      (kafka : Option KafkaSettings) → config.kafka ≡ kafka → All IsMeant (event_publisher kafka)
  unfolding event_publisher IsMeant
  event_publisher-Means (some settings) k = (k, tt)
  event_publisher-Means none k = tt

  start_consumer-Means :
      (handles : Bool) (kafka : Option KafkaSettings)
      → app.handles_events ≡ handles
      → config.kafka ≡ kafka
      → All IsMeant (start_consumer handles kafka)
  unfolding start_consumer event_source IsMeant
  start_consumer-Means true (some settings) h k = ((k, h), (tt, tt))
  start_consumer-Means true none h k = (tt, tt)
  start_consumer-Means false kafka h k = tt

  spawn-Means : (names : List Text) → All IsMeant (map spawn names)
  unfolding IsMeant
  spawn-Means [] = tt
  spawn-Means (name ∷ names) = (tt, spawn-Means names)

  frontend-Means :
      (open_browser : Bool)
      → config.http.open_browser ≡ open_browser
      → All IsMeant (frontend open_browser)
  unfolding IsMeant
  frontend-Means true o = (o, tt)
  frontend-Means false o = tt

  stop_database-Means :
      (url : Option Text) → config.database.url ≡ url → All IsMeant (stop_database url)
  unfolding IsMeant
  stop_database-Means (some url) u = tt
  stop_database-Means none u = (u, tt)

  serve_tasks-Means : All IsMeant (serve_tasks config app)
  unfolding serve_tasks IsMeant
  serve_tasks-Means = All-append IsMeant _ _ (start_consumer-Means _ _ refl refl) (
      All-append IsMeant _ _ (spawn-Means app.tasks) (
        tt,
        All-append IsMeant _ _ (frontend-Means _ refl)
            (tt, (tt, All-append IsMeant _ _ (stop_database-Means _ refl) (tt, (tt, tt)))),
      ))

  serve-Means : All IsMeant (serve config app)
  unfolding serve IsMeant
  serve-Means = (
    tt,
    (
      tt,
      All-append IsMeant _ _ (connect_database-Means _ _ refl refl) (
          All-append IsMeant _ _ (connect_shared_state-Means _ refl) (
            All-append IsMeant _ _ (event_publisher-Means _ refl)
              (tt, (tt, (tt, serve_tasks-Means))))),
    ),
  )

  -- A server reaches the database, the Redis server and the brokers that its configuration names, and
  -- no others, publishes to and reads from the same brokers, and reads only for an application that
  -- handles events. It migrates a database that it is given only when it is told to, and its own
  -- development database, which it starts only when it is given none, always.
  pub run-serve-Means :
      (succeeds : Step → Bool) (database_url : Option Text)
      → All IsMeant (run succeeds (execute (some config) database_url app none)).0
  unfolding execute serve_loaded IsMeant
  run-serve-Means succeeds database_url = run-All IsMeant succeeds _ (tt, (tt, serve-Means))
