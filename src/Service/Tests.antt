-- ===== src/Service/Tests.antt =====
-- A process with a database that does not answer.
use careerpilot.Base.{◌≡◌, ◌⊎◌, true, false, none, some, [], ◌∷◌, Error, deadline_exceeded, ok, err}
use careerpilot.Config.{Environment, Config, load}
use careerpilot.Service.Database
use careerpilot.Service.Database.{World}
use careerpilot.Service.Run.{run}
use careerpilot.Service.Run.Released.{opens, starts, Counts, one_if, run_releases}

abbrev vars : Environment
vars = ("CAREERPILOT_DATABASE_URL", "postgres://db") ∷ []

abbrev world : World
world = record {
  open_connection = λ h dsn. none;
  ping_connection = λ h. some deadline_exceeded;
  close_connection = λ h. none;
  listen_and_serve = λ h addr. none;
  is_server_closed = λ e. false;
  signal_chosen = λ h. true;
  shutdown = λ h. none;
}

run_releases_example :
    let h' = Database.notify_signals ∷ [] in
    ((cfg : Config) × (load vars ≡ ok cfg)
      × Counts world
          (one_if world (opens world cfg h'))
          1
          1
          (one_if world (starts world cfg h'))
          []
          (run world vars []).1)
    ⊎ ((e : Error) × (load vars ≡ err e) × (run world vars [] ≡ (some e, [])))
run_releases_example = run_releases world vars []
