-- ===== src/Bootstrap/Order.antt =====
-- src/bootstrap.rs: the order of the steps of a run.
use luxor.Base.{
  ℕ, ◌≤◌, ◌≡◌, refl, Bool, true, false, Option, none, some, List, [], ◌∷◌, ◌++◌, map, All, Text,
  codes, text_eq, Bool-cases, inl, inr, arith,
}
use luxor.Config.Kafka.{KafkaSettings}
use luxor.Config.Loaded.{Config}
use luxor.Bootstrap.{
  Step, bind, connect, start_dev_postgres, connect_dev_postgres, migrate, open_redis, connect_redis,
  connect_publisher, prewarm, build_state, spawn, connect_consumer, local_address, open_frontend,
  serve_requests, shutdown_tasks, stop_dev_postgres, drain, shutdown_observability, Application,
  connect_database, connect_shared_state, event_publisher, event_source, start_consumer, frontend,
  stop_database, serve, serve_tasks, serve_loaded, migrate_command, execute, goes_on, run,
}

-- The stages: what the process needs; the port; the backends that the state is made of; the tasks,
-- between which the source of the one that consumes events is connected; the requests; and then the
-- tasks, the database and the telemetry coming to their ends.
unfoldable pub stage : Step → ℕ
stage bind = 1
stage (connect url) = 2
stage start_dev_postgres = 2
stage connect_dev_postgres = 2
stage migrate = 2
stage (open_redis url) = 2
stage (connect_redis url) = 2
stage (connect_publisher settings) = 2
stage prewarm = 3
stage build_state = 3
stage (spawn name) = 3
stage (connect_consumer settings) = 3
stage local_address = 3
stage open_frontend = 3
stage serve_requests = 4
stage (shutdown_tasks grace) = 5
stage stop_dev_postgres = 6
stage drain = 7
stage shutdown_observability = 7
stage _ = 0

-- No step is of an earlier stage than one before it.
unfoldable pub IsStaged : ℕ → List Step → Type 0
IsStaged from [] = Unit
IsStaged from (step ∷ steps) = (from ≤ stage step) × IsStaged (stage step) steps

unfoldable pub IsOf : ℕ → List Step → Type 0
IsOf n steps = All (λ step. stage step ≡ n) steps

earlier-IsStaged : (k n : ℕ) (steps : List Step) → k ≤ n → IsStaged n steps → IsStaged k steps
unfolding IsStaged
earlier-IsStaged k n [] h s = tt
earlier-IsStaged k n (step ∷ steps) h (from, s) = (omega (arith, h, from), s)

append-IsStaged : (n : ℕ) (xs ys : List Step) → IsOf n xs → IsStaged n ys → IsStaged n (xs ++ ys)
unfolding IsStaged IsOf
append-IsStaged n [] ys h s = s
append-IsStaged n (x ∷ xs) ys (e, h) s = (omega (arith, e), rw e (append-IsStaged n xs ys h s))

pub run-IsStaged :
    (succeeds : Step → Bool) (n : ℕ) (steps : List Step)
    → IsStaged n steps
    → IsStaged n (run succeeds steps).0
unfolding IsStaged run
run-IsStaged succeeds n [] s = tt
run-IsStaged succeeds n (step ∷ steps) (from, s) = elim (Bool-cases (goes_on succeeds step)) [
  | inl on ↦ rw on (from, run-IsStaged succeeds (stage step) steps s)
  | inr ended ↦ rw ended (from, tt)
]

connect_database-IsOf :
    (url : Option Text) (auto_migrate : Bool) → IsOf 2 (connect_database url auto_migrate)
unfolding IsOf connect_database stage
connect_database-IsOf (some url) true = (refl, (refl, tt))
connect_database-IsOf (some url) false = (refl, tt)
connect_database-IsOf none auto_migrate = (refl, (refl, (refl, tt)))

connect_shared_state-IsOf : (url : Option Text) → IsOf 2 (connect_shared_state url)
unfolding IsOf connect_shared_state stage
connect_shared_state-IsOf (some url) = (refl, (refl, tt))
connect_shared_state-IsOf none = tt

event_publisher-IsOf : (kafka : Option KafkaSettings) → IsOf 2 (event_publisher kafka)
unfolding IsOf event_publisher stage
event_publisher-IsOf (some settings) = (refl, tt)
event_publisher-IsOf none = tt

start_consumer-IsOf :
    (handles : Bool) (kafka : Option KafkaSettings) → IsOf 3 (start_consumer handles kafka)
unfolding IsOf start_consumer event_source stage
start_consumer-IsOf true (some settings) = (refl, (refl, tt))
start_consumer-IsOf true none = (refl, tt)
start_consumer-IsOf false kafka = tt

spawn-IsOf : (names : List Text) → IsOf 3 (map spawn names)
unfolding IsOf stage
spawn-IsOf [] = tt
spawn-IsOf (name ∷ names) = (refl, spawn-IsOf names)

frontend-IsOf : (open_browser : Bool) → IsOf 3 (frontend open_browser)
unfolding IsOf stage
frontend-IsOf true = (refl, tt)
frontend-IsOf false = tt

stop_database-IsOf : (url : Option Text) → IsOf 6 (stop_database url)
unfolding IsOf stage
stop_database-IsOf (some url) = tt
stop_database-IsOf none = (refl, tt)

migrate_command-IsStaged : (url : Option Text) → IsStaged 0 (migrate_command url)
unfolding migrate_command IsStaged stage
migrate_command-IsStaged none = (omega arith, tt)
migrate_command-IsStaged (some url) = (omega arith, (omega arith, tt))

module _ {Ip : Type 0} where
  -- The part of `serve` from the tasks on.
  serve_tasks-IsStaged :
      (config : Config Ip) (app : Application) → IsStaged 3 (serve_tasks config app)
  unfolding serve_tasks IsStaged stage
  serve_tasks-IsStaged config app =
      append-IsStaged 3 _ _ (start_consumer-IsOf app.handles_events config.kafka) (
        append-IsStaged 3 _ _ (spawn-IsOf app.tasks) (
          omega arith,
          append-IsStaged 3 _ _ (frontend-IsOf config.http.open_browser) (
            omega arith,
            (
              omega arith,
              earlier-IsStaged 5 6 _ (omega arith) (
                  append-IsStaged 6 _ _ (stop_database-IsOf config.database.url)
                    (omega arith, (omega arith, tt))),
            ),
          ),
        ))

  serve-IsStaged : (config : Config Ip) (app : Application) → IsStaged 0 (serve config app)
  unfolding serve IsStaged stage
  serve-IsStaged config app = (
    omega arith,
    (
      omega arith,
      earlier-IsStaged 1 2 _ (omega arith) (
          append-IsStaged 2 _ _ (connect_database-IsOf config.database.url _) (
            append-IsStaged 2 _ _ (connect_shared_state-IsOf config.redis_url) (
              append-IsStaged 2 _ _ (event_publisher-IsOf config.kafka)
                (omega arith, (omega arith, (omega arith, serve_tasks-IsStaged config app)))))),
    ),
  )

  serve_loaded-IsStaged :
      (loaded : Option (Config Ip)) (app : Application) → IsStaged 0 (serve_loaded loaded app)
  unfolding serve_loaded IsStaged stage
  serve_loaded-IsStaged none app = (omega arith, tt)
  serve_loaded-IsStaged (some config) app = (omega arith, serve-IsStaged config app)

  pub execute-IsStaged :
      (loaded : Option (Config Ip)) (database_url : Option Text) (app : Application)
      (argument : Option Text)
      → IsStaged 0 (execute loaded database_url app argument)
  unfolding execute IsStaged stage
  execute-IsStaged loaded database_url app none = (omega arith, serve_loaded-IsStaged loaded app)
  execute-IsStaged loaded database_url app (some command) =
      elim (Bool-cases (text_eq command (codes "migrate"))) [
        | inl named ↦ rw named (omega arith, migrate_command-IsStaged database_url)
        | inr unknown ↦ rw unknown (omega arith, (omega arith, tt))
      ]
