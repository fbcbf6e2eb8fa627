-- ===== src/Service/Database.antt =====
-- internal/storage/postgres/postgres.go, and the calls of the whole process.
use careerpilot.Base.{
  String, Bool, Option, none, some, List, if◌then◌else◌, nat_eq, ◌==◌, string_eq, int_eq, Error,
  on_nil, message, wrap, Result, ok, err, M, ◌>>=◌, pure, call,
}

pub data Call : Type 0 where
  notify_signals stop_signals : Call
  open_connection : String → Call
  ping_connection close_connection : Call
  log_info : String → Call
  listen_and_serve : String → Call
  wait_for_signal shutdown : Call

-- What the process calls. `open_connection` stands for `sql.Open` with the driver "pgx". What
-- `listen_and_serve` has returned is `none` while it is serving.
pub record World : Type 0 where
  pub open_connection : List Call → String → Option Error
  pub ping_connection : List Call → Option Error
  pub close_connection : List Call → Option Error
  pub listen_and_serve : List Call → String → Option (Option Error)
  pub is_server_closed : Error → Bool  -- `errors.Is(err, http.ErrServerClosed)`
  pub signal_chosen : List Call → Bool  -- which case `select` takes when both are ready
  pub shutdown : List Call → Option Error

-- A `*DB`: its connection pool is the one that was opened last.
pub record Db : Type 0 where
  pub dsn : String

module _ (w : World) where
  after_ping : String → Option Error → M Call (Result Db)
  after_ping dsn none = pure (ok (record { dsn = dsn }))
  after_ping dsn (some e) = do
    closed ← call close_connection w.close_connection
    pure (err (wrap "postgres: ping" e))

  unfoldable pub open_database : String → M Call (Result Db)
  unfolding after_ping
  open_database dsn =
      if dsn == "" then pure (err (message "postgres: dsn must not be empty")) else do
        failure ← call (open_connection dsn) (λ h. w.open_connection h dsn)
        on_nil failure (λ e. err (wrap "postgres: open" e))
            do unanswered ← call ping_connection w.ping_connection; after_ping dsn unanswered

  unfoldable pub close_database : Db → M Call (Option Error)
  close_database db = call close_connection w.close_connection

  unfoldable pub ping_database : Db → M Call (Option Error)
  ping_database db = call ping_connection w.ping_connection
