-- ===== src/Service/App.antt =====
-- internal/app/app.go, and the level of internal/logging/logging.go.
use careerpilot.Base.{
  String, not, Option, none, some, if◌then◌else◌, nat_eq, ◌==◌, string_eq, int_eq, Error, wrap,
  Result, ok, err, M, ◌>>=◌, pure, on_ok,
}
use careerpilot.Config.{Config, Level, parse_level}
use careerpilot.Service.Database.{Call, World, Db, open_database, close_database}

-- An `App`: its logger by its level, its server by its address.
pub record App : Type 0 where
  pub config : Config
  pub logger : Level
  pub db : Option Db
  pub addr : String

abbrev pub app_with : Config → Option Db → App
app_with cfg db = record {
  config = cfg;
  logger = parse_level cfg.log_level;
  db = db;
  addr = cfg.http_addr;
}

module _ (w : World) where
  unfoldable pub new_app : Config → M Call (Result App)
  new_app cfg =
      if not (cfg.database_url == "")
      then (do
        opened ← open_database w cfg.database_url
        on_ok opened (λ e. err (wrap "app: connect to postgres" e))
            λ db. pure (ok (app_with cfg (some db))))
      else pure (ok (app_with cfg none))

  close_db : Option Db → M Call (Option Error)
  close_db none = pure none
  close_db (some db) = close_database w db

  unfoldable pub close_app : App → M Call (Option Error)
  unfolding close_db
  close_app a = close_db a.db
