-- ===== src/Browser/Steps.antt =====
-- internal/browser/runner.go: the steps that start, resume and submit share.
pub mod Quiet
pub mod Agree
pub mod HandOver
pub mod Tracked
pub mod Notified
use careerpilot.Base.{
  String, ◌<>◌, true, Option, none, some, if◌then◌else◌, nat_eq, ◌==◌, string_eq, int_eq, Error,
  on_nil, wrap, Result, ok, err, M, ◌>>=◌, pure, call, on_ok, Time,
}
use careerpilot.Browser.Types
use careerpilot.Browser.Types.{
  FieldValue, PageState, normal, captcha, login_wall, unknown, navigate_error, page_state_text,
  Screenshot, Session, no_session, is_expired, Checkpoint, Outcome, StepResult, no_result, Return,
  Call, Runner,
}
use careerpilot.Browser.Recovery.{new_recovery_token}

-- `Result{Session: s, Outcome: o}, nil`.
abbrev pub done : Session → Outcome → Return
done s o = (record { session = s; outcome = o }, none)

-- `Result{}, err`.
abbrev pub stopped : Error → Return
stopped e = (no_result, some e)

-- `session, err := r.saveSession(session); return Result{Session: session, Outcome: o}, err`.
settled : Outcome → Result Session → Return
settled o (ok s) = done s o
settled o (err e) = (record { session = no_session; outcome = o }, some e)

module _ (r : Runner) where
  unfoldable pub save_session : Session → M Call (Result Session)
  save_session s = do
    saved ← call (Types.save_session s) (λ h. r.save_session h s)
    on_ok saved (λ e. err (wrap "browser: save session" e)) λ s'. pure (ok s')

  unfoldable pub fail : Session → String → M Call Return
  unfolding save_session settled
  fail session reason = do
    saved ←
        save_session (record session { state = Types.SessionState.failed; failure_reason = reason })
    pure (settled Outcome.failed saved)

  unfoldable pub expire : Session → M Call Return
  unfolding save_session settled
  expire session = do
    saved ← save_session (record session { state = Types.SessionState.expired })
    pure (settled Outcome.expired saved)

  -- `if err == nil { ref, _ = r.Screens.Save(...) }`
  unfoldable pub store_screenshot : Session → Result Screenshot → M Call String
  store_screenshot session (ok shot) =
      call (Types.save_screenshot session.id shot) (λ h. r.save_screenshot h session.id shot)
  store_screenshot session (err e) = pure ""

  -- Whom a pause tells: `if r.Notifier != nil`.
  pub notify : Session → String → String → M Call (Option Error)
  notify session reason url = elim r.notifier [
    | none ↦ pure none
    | some send ↦
        call (Types.notify_human_required session.id session.application_id reason url)
          (λ h. send h session.id session.application_id reason url)
  ]

  -- What a pause does once the session is saved: token, stored hash, notification.
  unfoldable pub hand_over : Session → String → M Call Return
  unfolding notify new_recovery_token
  hand_over session reason = do
    now ← call Types.read_clock r.now
    drawn ← new_recovery_token r session.id now r.recovery_ttl
    on_ok drawn (λ e. stopped (wrap "browser: generate recovery token" e))
        λ token. do
          failure ←
              call (Types.save_token_hash token.hash session.id token.expires_at)
                (λ h. r.tokens.save_token_hash h token.hash session.id token.expires_at)
          on_nil failure (λ e. stopped (wrap "browser: save recovery token" e))
              do
                unsent ← notify session reason ("/recovery/" <> token.raw)
                on_nil unsent
                    (λ e. (
                      record { session = session; outcome = Outcome.human_required },
                      some (wrap "browser: notify human required" e),
                    ))
                    (pure (done session Outcome.human_required))

  -- The session that a pause saves.
  pub paused : Session → String → String → String → Session
  paused session reason ref url = record session {
    current_url = if url == "" then session.current_url else url;
    state = Types.SessionState.human_required;
    needs_human = true;
    failure_reason = reason;
    screenshot_ref = ref;
  }

  unfoldable pub pause_for_human : Session → String → M Call Return
  pause_for_human session reason = do
    shot ← call Types.take_screenshot r.driver.screenshot
    ref ← store_screenshot session shot
    url ← call Types.read_url r.driver.current_url
    saved ← save_session (paused session reason ref url)
    on_ok saved (λ e. stopped e) λ s. hand_over s reason

  -- `none` stands for `handled = false`.
  unfoldable pub handle_non_normal_state : Session → PageState → M Call (Option Return)
  handle_non_normal_state session normal = pure none
  handle_non_normal_state session captcha = do
    result ← pause_for_human session "CAPTCHA detected"
    pure (some result)
  handle_non_normal_state session login_wall = do
    result ← pause_for_human session "unrecognized page state: login_wall"
    pure (some result)
  handle_non_normal_state session unknown = do
    result ← pause_for_human session "unrecognized page state: unknown"
    pure (some result)
  handle_non_normal_state session navigate_error = do
    result ← fail session "navigation error"
    pure (some result)
  handle_non_normal_state session state = do
    result ← pause_for_human session ("unhandled page state: " <> page_state_text state)
    pure (some result)

  -- `checkpoint` on what became of the record.
  unfoldable pub after_record : Session → Time → String → Option Error → M Call (Result Session)
  after_record session now ref (some e) = pure (err (wrap "browser: save checkpoint" e))
  after_record session now ref none =
      save_session (record session { last_checkpoint_at = now; screenshot_ref = ref })

  unfoldable pub checkpoint : Session → String → M Call (Result Session)
  checkpoint session step = do
    shot ← call Types.take_screenshot r.driver.screenshot
    ref ← store_screenshot session shot
    now ← call Types.read_clock r.now
    id ← call Types.new_id r.new_id
    let c : Checkpoint = record {
      id = id;
      session_id = session.id;
      step = step;
      current_url = session.current_url;
      screenshot_ref = ref;
      created_at = now;
    }
    failure ← call (Types.save_checkpoint c) (λ h. r.save_checkpoint h c)
    after_record session now ref failure
