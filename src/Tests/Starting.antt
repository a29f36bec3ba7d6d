-- ===== src/Tests/Starting.antt =====
-- Inputs for the start of the server.
use luxor.Base.{◌≡◌, refl, Bool, true, false, none, some, [], ◌∷◌, codes}
use luxor.Bootstrap.{
  Step, install_crypto_provider, load_config, init_observability, bind, connect, Application,
  execute, serve_loaded, serve, serve_tasks, connect_database, connect_shared_state,
  event_publisher, start_consumer, event_source, run, goes_on, is_fallible,
}
use luxor.Tests.Settings.{config}

abbrev app : Application
app = record { handles_events = true; tasks = codes "reporter" ∷ [] }

-- Everything succeeds but connecting to the database.
abbrev offline : Step → Bool
offline (connect url) = false
offline _ = true

offline_log : run offline (execute (some config) none app none) ≡ (
  install_crypto_provider
      ∷ load_config
      ∷ init_observability
      ∷ bind
      ∷ connect (codes "postgres://db/luxor")
      ∷ [],
  false,
)
unfolding run execute serve_loaded serve serve_tasks connect_database connect_shared_state
    event_publisher start_consumer event_source goes_on is_fallible
offline_log = refl
