-- ===== src/Browser/Runner.antt =====
-- internal/browser/runner.go: start, resume and submit.
pub mod Bounds
pub mod Guards
pub mod Clicks
pub mod Outcomes
pub mod Submitted
pub mod Lifecycle
pub mod Deadline
mod Tests
use careerpilot.Base.{
  String, ◌<>◌, not, Option, none, some, List, if◌then◌else◌, leb_ℤ, show_ℤ, show_list, fields,
  Error, message, wrap, error_text, Result, ok, err, M, ◌>>=◌, pure, call, on_ok, Time, add,
  start_of_day, minutes,
}
use careerpilot.Application.Types.{SafetyGateResult}
use careerpilot.Browser.Types
use careerpilot.Browser.Types.{
  FieldValue, PageState, normal, captcha, login_wall, unknown, navigate_error, page_state_text,
  Screenshot, Session, no_session, is_expired, Checkpoint, Outcome, StepResult, no_result, Return,
  Call, Runner,
}
use careerpilot.Browser.Recovery.{redeem}
use careerpilot.Browser.Steps.{
  done, stopped, save_session, fail, expire, pause_for_human, handle_non_normal_state, checkpoint,
}

pub record StartInput : Type 0 where
  pub application_id : String
  pub platform : String
  pub start_url : String
  pub fields : List FieldValue

pub record SubmitInput : Type 0 where
  pub session : Session
  pub gate_result : SafetyGateResult
  pub submit_selector : String

module _ (r : Runner) where
  -- The rest of `fillAndCheckpoint`, in the order of its early returns: on what became of the
  -- page, on the detected state, on the filling.
  after_handling : Session → Option Return → M Call Return
  after_handling session (some result) = pure result
  after_handling session none = do
    saved ← checkpoint r session "form_section"
    on_ok saved (λ e. stopped e) λ s. pure (done s Outcome.ready_for_review)

  after_detection : Session → Result PageState → M Call Return
  after_detection session (err e) = fail r session ("state detection failed: " <> error_text e)
  after_detection session (ok state) = do
    handled ← handle_non_normal_state r session state
    after_handling session handled

  after_fill : Session → Option Error → M Call Return
  after_fill session (some e) = fail r session ("fill failed: " <> error_text e)
  after_fill session none = do
    detected ← call Types.detect_state r.driver.detect_state
    after_detection session detected

  pub fill_and_checkpoint : Session → List FieldValue → M Call Return
  fill_and_checkpoint session values = do
    failure ← call (Types.fill values) (λ h. r.driver.fill h values)
    after_fill session failure

  -- The rest of `navigateAndFill`, on what became of the page and on the navigation.
  after_arrival : Session → List FieldValue → Option Return → M Call Return
  after_arrival session values (some result) = pure result
  after_arrival session values none = fill_and_checkpoint session values

  after_navigation : Session → String → List FieldValue → Result PageState → M Call Return
  after_navigation session url values (err e) =
      fail r session ("navigation failed: " <> error_text e)
  after_navigation session url values (ok state) = do
    let there = record session { current_url = url }
    handled ← handle_non_normal_state r there state
    after_arrival there values handled

  pub navigate_and_fill : Session → String → List FieldValue → M Call Return
  navigate_and_fill session url values = do
    now ← call Types.read_clock r.now
    if is_expired session now then expire r session else do
      answer ← call (Types.navigate url) (λ h. r.driver.navigate h url)
      after_navigation session url values answer

  -- The driver could not be launched.
  launch_failed : Session → Error → M Call Return
  launch_failed session e = do
    saved ←
        save_session r
          (record session { state = Types.SessionState.failed; failure_reason = error_text e })
    on_ok saved
        (λ save_err. stopped (
          wrap ("browser: launch failed (" <> error_text e <> ") and save session also failed")
            save_err))
        λ s.
          pure (record { session = s; outcome = Outcome.failed }, some (wrap "browser: launch" e))

  after_launch : StartInput → Session → Option Error → M Call Return
  after_launch i session (some e) = launch_failed session e
  after_launch i session none = do
    saved ← save_session r (record session { state = Types.SessionState.running })
    on_ok saved (λ e. stopped e) λ s. navigate_and_fill s i.start_url i.fields

  -- The session that `Start` makes.
  abbrev pub new_session : StartInput → String → Time → Session
  new_session i id now = record no_session {
    id = id;
    application_id = i.application_id;
    platform = i.platform;
    state = Types.SessionState.starting;
    started_at = now;
    expires_at = add now (minutes r.limits.max_session_minutes);
  }

  -- `Start` behind the daily limit.
  open_session : StartInput → M Call Return
  open_session i = do
    now ← call Types.read_clock r.now
    id ← call Types.new_id r.new_id
    let session = new_session i id now
    failure ← call Types.launch r.driver.launch
    after_launch i session failure

  pub start : StartInput → M Call Return
  start i = do
    now ← call Types.read_clock r.now
    let since = start_of_day now
    counted ← call (Types.count_started_since since) (λ h. r.count_started_since h since)
    on_ok counted (λ e. stopped (wrap "browser: check session limit" e))
        λ n.
          if leb_ℤ r.limits.browser_sessions_per_day n
          then pure (
              stopped (
                message (
                  "browser: daily browser session limit ("
                  <> show_ℤ r.limits.browser_sessions_per_day
                  <> ") reached")))
          else open_session i

  -- `Resume` on the state of the page that the person left behind.
  after_look : Session → List FieldValue → Result PageState → M Call Return
  after_look session values (err e) =
      fail r session ("resume state detection failed: " <> error_text e)
  after_look session values (ok normal) = do
    saved ← save_session r (record session { state = Types.SessionState.resumed })
    on_ok saved (λ e. stopped e) λ s. fill_and_checkpoint s values
  after_look session values (ok state) =
      pause_for_human r session ("page still not resumable: " <> page_state_text state)

  -- `Resume` behind the token and the stored session.
  pub resume_session : Session → List FieldValue → M Call Return
  resume_session session values = do
    now ← call Types.read_clock r.now
    if is_expired session now then expire r session else do
      detected ← call Types.detect_state r.driver.detect_state
      after_look session values detected

  -- `Resume` behind the token.
  load_and_resume : String → List FieldValue → M Call Return
  load_and_resume session_id values = do
    loaded ← call (Types.get_session session_id) (λ h. r.get_session h session_id)
    on_ok loaded (λ e. stopped (wrap "browser: resume: load session" e))
        λ session. resume_session session values

  pub resume : String → List FieldValue → M Call Return
  resume raw_token values = do
    now ← call Types.read_clock r.now
    redeemed ← redeem r raw_token now
    on_ok redeemed (λ e. stopped (wrap "browser: resume" e))
        λ session_id. load_and_resume session_id values

  -- `Submit` on what the click showed, `handleNonNormalStateAfterSubmit` included.
  unfoldable pub after_click : Session → PageState → M Call Return
  after_click session Types.submitted = do
    saved ← save_session r (record session { state = Types.SessionState.completed })
    on_ok saved (λ e. stopped e) λ s. pure (done s Outcome.submitted)
  after_click session normal = pause_for_human r session "submission outcome could not be confirmed"
  after_click session captcha =
      pause_for_human r session "CAPTCHA detected after submission attempt"
  after_click session state =
      pause_for_human r session ("unexpected state after submission: " <> page_state_text state)

  unfoldable pub after_submit : Session → Result PageState → M Call Return
  after_submit session (err e) =
      pause_for_human r session ("submission outcome uncertain: " <> error_text e)
  after_submit session (ok state) = after_click session state

  unfoldable pub click : Session → String → M Call Return
  click session selector = do
    answer ← call (Types.click_submit selector) (λ h. r.driver.submit h selector)
    after_submit session answer

  -- `Submit` behind the gate and the expiry.
  unfoldable pub confirmed : SubmitInput → M Call Return
  confirmed i = do
    saved ← save_session r (record i.session { state = Types.SessionState.running })
    on_ok saved (λ e. stopped e) λ s. click s i.submit_selector

  unfoldable pub submit : SubmitInput → M Call Return
  submit i =
      if not i.gate_result.passed
      then pure (
          stopped (
            message (
              "browser: refusing to submit: safety gate failed: "
              <> show_list i.gate_result.reasons)))
      else do
        now ← call Types.read_clock r.now
        if is_expired i.session now then expire r i.session else confirmed i
