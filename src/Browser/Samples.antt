-- ===== src/Browser/Samples.antt =====
-- A runner with its browser, session and stores, for the runs on examples.
use careerpilot.Base.{Bool, none, some, List, [], ◌∷◌, pos, ok, minute}
use careerpilot.Browser.Types
use careerpilot.Browser.Types.{
  FieldValue, PageState, Session, no_session, SessionState, Runner, Driver, TokenStore,
}
use careerpilot.Browser.Runner.{StartInput, SubmitInput}

abbrev pub driver : PageState → Driver
driver page = record {
  launch = λ h. none;
  navigate = λ h url. ok page;
  fill = λ h values. none;
  detect_state = λ h. ok page;
  screenshot = λ h. ok (record { image = 1 ∷ []; mime_type = "image/png" });
  current_url = λ h. "https://jobs.example/apply";
  submit = λ h selector. ok Types.submitted;
}

abbrev pub tokens : TokenStore
tokens = record {
  save_token_hash = λ h hash id expires. none;
  lookup_by_hash = λ h hash now. ok (some "s1");
  revoke_by_hash = λ h hash. none;
}

abbrev pub session : Session
session = record no_session {
  id = "s1";
  application_id = "a1";
  state = SessionState.human_required;
  expires_at = pos 5000;
}

abbrev pub runner : PageState → Runner
runner page = record {
  driver = driver page;
  tokens = tokens;
  count_started_since = λ h since. ok (pos 2);
  save_session = λ h s. ok s;
  get_session = λ h id. ok session;
  save_checkpoint = λ h c. none;
  save_screenshot = λ h id shot. "shots/1";
  notifier = some (λ h id application reason url. none);
  limits = record { browser_sessions_per_day = pos 2; max_session_minutes = pos 30 };
  recovery_ttl = minute;
  random_token = λ h. ok "raw";
  sha256_hex = λ s. s;
  new_id = λ h. "id";
  now = λ h. pos 1000;
}

abbrev pub values : List FieldValue
values = record { selector = "#name"; value = "Kartik" } ∷ []

abbrev pub start_input : StartInput
start_input = record {
  application_id = "a1";
  platform = "greenhouse";
  start_url = "https://jobs.example/1";
  fields = values;
}

abbrev pub submit_input : Bool → SubmitInput
submit_input passed = record {
  session = session;
  gate_result = record { passed = passed; reasons = "resume not verified/approved" ∷ [] };
  submit_selector = "#submit";
}
