-- ===== src/Service/Run.antt =====
-- cmd/api/main.go.
pub mod Released
use careerpilot.Base.{
  not, Option, none, some, if◌then◌else◌, Error, ok, err, M, ◌>>=◌, pure, call, on_ok,
}
use careerpilot.Config.{Environment, Config, load}
use careerpilot.Service.Database
use careerpilot.Service.Database.{Call, World}
use careerpilot.Service.App.{App, new_app, close_app}

module _ (w : World) where
  -- What the goroutine sends: an error of the server that is not its orderly end.
  pub error_sent : Option (Option Error) → Option Error
  error_sent none = none
  error_sent (some none) = none
  error_sent (some (some e)) = if not (w.is_server_closed e) then some e else none

  interrupted : M Call (Option Error)
  interrupted = do
    logged ← call (Database.log_info "shutdown signal received") (λ h. tt)
    call Database.shutdown w.shutdown

  -- The `select`: with nothing sent it waits for a signal.
  after_select : Option Error → M Call (Option Error)
  after_select none = do signalled ← call Database.wait_for_signal (λ h. tt); interrupted
  after_select (some e) = do
    chosen ← call Database.wait_for_signal w.signal_chosen
    if chosen then interrupted else pure (some e)

  serve : App → M Call (Option Error)
  serve a = do
    logged ← call (Database.log_info "starting careerpilot api") (λ h. tt)
    answer ← call (Database.listen_and_serve a.addr) (λ h. w.listen_and_serve h a.addr)
    after_select (error_sent answer)

  -- `run` with its application, which is closed on every way out.
  serve_and_close : App → M Call (Option Error)
  serve_and_close a = do result ← serve a; closed ← close_app w a; pure result

  -- `run` with the signals, which are released on every way out.
  with_signals : Config → M Call (Option Error)
  with_signals cfg = do
    notified ← call Database.notify_signals (λ h. tt)
    made ← new_app w cfg
    result ← on_ok made (λ e. some e) λ a. serve_and_close a
    stopped ← call Database.stop_signals (λ h. tt)
    pure result

  pub run : Environment → M Call (Option Error)
  run vars = elim (load vars) [ err e ↦ pure (some e) | ok cfg ↦ with_signals cfg ]
