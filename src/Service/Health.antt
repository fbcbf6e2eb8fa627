-- ===== src/Service/Health.antt =====
-- internal/httpserver/server.go: the health check. The multiplexer calls it for "GET /healthz".
use careerpilot.Base.{◌<>◌, ℕ, String, Option, none, some, List, Error, M, ◌>>=◌, pure, call}

pub data Call : Type 0 where
  set_content_type : String → Call
  write_header : ℕ → Call
  write_body : String → Call
  log_error : Error → Call

pub record HealthResponse : Type 0 where
  pub status : String

-- `json.NewEncoder(w).Encode`, for a status that needs no escapes.
abbrev pub encode : HealthResponse → String
encode r = "{\"status\":\"" <> r.status <> "\"}\n"

after_body : Option Error → M Call Unit
after_body none = pure tt
after_body (some e) = call (log_error e) (λ h. tt)

-- `write_failed` answers what becomes of the body.
pub handle_healthz : (List Call → Option Error) → M Call Unit
handle_healthz write_failed = do
  typed ← call (set_content_type "application/json") (λ h. tt)
  headed ← call (write_header 200) (λ h. tt)
  let body = encode (record { status = "ok" })
  failure ← call (write_body body) write_failed
  after_body failure
