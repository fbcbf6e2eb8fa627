-- ===== src/Browser/Types.antt =====
-- internal/browser/driver.go, session.go and the interfaces and structs of runner.go. The driver,
-- the stores, the notifier, the random source, the id generator and the clock are the environment.
use careerpilot.Base.{
  ℕ, String, Bool, false, not, ◌&&◌, Option, List, ℤ, pos, Error, Result, Time, Duration, is_zero,
  after,
}

pub record FieldValue : Type 0 where
  pub selector : String
  pub value : String

-- `unlisted` is a state that is none of the constants.
pub data PageState : Type 0 where
  normal captcha login_wall unknown submitted navigate_error : PageState
  unlisted : String → PageState

abbrev pub page_state_text : PageState → String
page_state_text normal = "normal"
page_state_text captcha = "captcha"
page_state_text login_wall = "login_wall"
page_state_text unknown = "unknown"
page_state_text submitted = "submitted"
page_state_text navigate_error = "navigate_error"
page_state_text (unlisted s) = s

pub record Screenshot : Type 0 where
  pub image : List ℕ
  pub mime_type : String

-- `unset` is the state of the zero value of a session.
pub data SessionState : Type 0 where
  unset queued starting running human_required resumed completed failed expired : SessionState

pub record Session : Type 0 where
  pub id : String
  pub application_id : String
  pub platform : String
  pub current_url : String
  pub state : SessionState
  pub started_at : Time
  pub last_checkpoint_at : Time
  pub screenshot_ref : String
  pub expires_at : Time
  pub needs_human : Bool  -- the field `HumanRequired`
  pub failure_reason : String
  pub browser_context_ref : String

-- `Session{}`.
abbrev pub no_session : Session
no_session = record {
  id = "";
  application_id = "";
  platform = "";
  current_url = "";
  state = unset;
  started_at = pos 0;
  last_checkpoint_at = pos 0;
  screenshot_ref = "";
  expires_at = pos 0;
  needs_human = false;
  failure_reason = "";
  browser_context_ref = "";
}

-- `Session.IsExpired`.
unfoldable pub is_expired : Session → Time → Bool
is_expired s now = not (is_zero s.expires_at) && after now s.expires_at

pub record Checkpoint : Type 0 where
  pub id : String
  pub session_id : String
  pub step : String
  pub current_url : String
  pub screenshot_ref : String
  pub created_at : Time

-- The strings of `Result.Outcome`; `Outcome.unset` is the empty one.
pub data Outcome : Type 0 where
  unset human_required submitted failed expired ready_for_review : Outcome

pub record StepResult : Type 0 where
  pub session : Session
  pub outcome : Outcome

-- `Result{}`.
abbrev pub no_result : StepResult
no_result = record { session = no_session; outcome = Outcome.unset }

-- `(Result, error)`.
abbrev pub Return : Type 0
Return = StepResult × Option Error

pub data Call : Type 0 where
  launch : Call
  navigate : String → Call
  fill : List FieldValue → Call
  detect_state take_screenshot read_url : Call
  click_submit : String → Call
  count_started_since : Time → Call
  save_session : Session → Call
  get_session : String → Call
  save_checkpoint : Checkpoint → Call
  save_token_hash : String → String → Time → Call
  lookup_by_hash : String → Time → Call
  revoke_by_hash : String → Call
  save_screenshot : String → Screenshot → Call
  notify_human_required : String → String → String → String → Call
  draw_token new_id read_clock : Call

pub record Limits : Type 0 where
  pub browser_sessions_per_day : ℤ
  pub max_session_minutes : ℤ

-- A driver. A page state that comes with an error is never read.
pub record Driver : Type 0 where
  pub launch : List Call → Option Error
  pub navigate : List Call → String → Result PageState
  pub fill : List Call → List FieldValue → Option Error
  pub detect_state : List Call → Result PageState
  pub screenshot : List Call → Result Screenshot
  pub current_url : List Call → String
  pub submit : List Call → String → Result PageState

pub record TokenStore : Type 0 where
  pub save_token_hash : List Call → String → String → Time → Option Error
  pub lookup_by_hash : List Call → String → Time → Result (Option String)
  pub revoke_by_hash : List Call → String → Option Error

-- A `Runner`. `random_token` is the text of 32 bytes from crypto/rand, `sha256_hex` the hash.
pub record Runner : Type 0 where
  pub driver : Driver
  pub tokens : TokenStore
  pub count_started_since : List Call → Time → Result ℤ
  pub save_session : List Call → Session → Result Session
  pub get_session : List Call → String → Result Session
  pub save_checkpoint : List Call → Checkpoint → Option Error
  pub save_screenshot : List Call → String → Screenshot → String
  pub notifier : Option (List Call → String → String → String → String → Option Error)
  pub limits : Limits
  pub recovery_ttl : Duration
  pub random_token : List Call → Result String
  pub sha256_hex : String → String
  pub new_id : List Call → String
  pub now : List Call → Time
