-- ===== src/Browser/Runner/Tests.antt =====
-- Runs of internal/browser/runner.go on one browser, one session and one set of stores.
use careerpilot.Base.{
  string_eq, nat_eq, suc, ◌<◌, String, ◌<>◌, ◌≡◌, refl, ◌↔◌, ◌⊎◌, true, false, none, some, [], ◌∷◌,
  arith, pos, int_eq, ok, add, minute,
}
use careerpilot.Notification
use careerpilot.Notification.{notify_human_required}
use careerpilot.Browser.Lifecycle.{Follows}
use careerpilot.Browser.Recovery.{new_recovery_token}
use careerpilot.Browser.Steps.Notified.{
  service_notifier, stored_notification, hand_over_stores_link,
}
use careerpilot.Browser.Runner.Lifecycle.{lifecycle_followed}
use careerpilot.Browser.Types
use careerpilot.Browser.Types.{
  Call, is_expired, normal, captcha, Session, SessionState, Outcome, Runner,
}
use careerpilot.Browser.Steps.{save_session, hand_over}
use careerpilot.Browser.Steps.HandOver.{IsHandedOver, hand_over-IsHandedOver}
use careerpilot.Browser.Steps.Agree.{Agrees, Faithful}
use careerpilot.Browser.Steps.Quiet.{clicks, fills}
use careerpilot.Browser.Runner.{
  new_session, SubmitInput, start, navigate_and_fill, resume, resume_session, submit, confirmed,
  click, after_submit, after_click,
}
use careerpilot.Browser.Runner.Bounds.{actions_bounded}
use careerpilot.Browser.Runner.Bounds.Filling.{AddsAtMost}
use careerpilot.Browser.Runner.Deadline.{new_session-deadline}
use careerpilot.Browser.Runner.Guards.{fill_needs_normal}
use careerpilot.Browser.Runner.Clicks.{running, submit_clicks_exact}
use careerpilot.Browser.Runner.Outcomes.{outcome_matches_state}
use careerpilot.Browser.Runner.Submitted.{IsConfirmed, submitted_needs_signal}
use careerpilot.Browser.Samples.{session, runner, values, start_input, submit_input}

submits : (submit (runner normal) (submit_input true) []).0.0.outcome ≡ Outcome.submitted
unfolding submit confirmed click after_submit after_click save_session is_expired int_eq
submits = refl

submitted_needs_signal_example : IsConfirmed (runner normal) (submit_input true) []
submitted_needs_signal_example =
    submitted_needs_signal (runner normal) (submit_input true) [] submits

actions_bounded_example :
    AddsAtMost 1 1 1 0 [] (start (runner normal) start_input []).1
    × AddsAtMost 0 0 1 0 [] (resume (runner normal) "raw" values []).1
    × AddsAtMost 0 0 0 1 [] (submit (runner normal) (submit_input true) []).1
actions_bounded_example =
    actions_bounded (runner normal) start_input "raw" values (submit_input true) []

keeps_sessions : Faithful (runner captcha)
keeps_sessions h s s' saved = ground arith

outcome_matches_state_example :
    Agrees (start (runner captcha) start_input []).0
    × Agrees (resume (runner captcha) "raw" values []).0
    × Agrees (submit (runner captcha) (submit_input true) []).0
outcome_matches_state_example =
    outcome_matches_state (runner captcha) keeps_sessions start_input "raw" values
      (submit_input true) []

fill_needs_normal_example :
    let r = runner captcha in
    let h' = Types.read_clock ∷ [] in
    ((r.driver.navigate h' "https://jobs.example/1" ≡ ok normal)
      ⊎ (fills (navigate_and_fill r session "https://jobs.example/1" values []).1 ≡ fills []))
    × ((r.driver.detect_state h' ≡ ok normal)
        ⊎ (fills (resume_session r session values []).1 ≡ fills []))
fill_needs_normal_example =
    fill_needs_normal (runner captcha) session "https://jobs.example/1" values []

submit_clicks_exact_example :
    let i = submit_input true in
    let h' = (submit (runner normal) i []).1 in
    ((clicks h' ≡ suc (clicks [])) ⊎ (clicks h' ≡ clicks []))
    × ((clicks h' ≡ suc (clicks [])) ↔ (
        (i.gate_result.passed ≡ true)
        × (is_expired i.session (pos 1000) ≡ false)
        × ((s : Session) × ((runner normal).save_session
                (Types.read_clock ∷ [])
                (running (runner normal) i)
              ≡ ok s))))
submit_clicks_exact_example = submit_clicks_exact (runner normal) (submit_input true) []

hands_over :
    (hand_over (runner normal) session "CAPTCHA detected" []).0.0.outcome ≡ Outcome.human_required
unfolding hand_over
hands_over = refl

hand_over-IsHandedOver_example :
    IsHandedOver
      (runner normal)
      session
      "CAPTCHA detected"
      []
      (hand_over (runner normal) session "CAPTCHA detected" []).1
hand_over-IsHandedOver_example =
    hand_over-IsHandedOver (runner normal) session "CAPTCHA detected" [] hands_over

-- A session that is ready for review.
abbrev reviewed : SubmitInput
reviewed = record {
  session = record session { state = SessionState.running };
  gate_result = record { passed = true; reasons = [] };
  submit_selector = "#submit";
}

stores_sessions : Faithful (runner normal)
stores_sessions h s s' saved = ground arith

lifecycle_followed_example :
    Follows (runner normal) SessionState.starting [] (start (runner normal) start_input [])
    × Follows
        (runner normal)
        SessionState.human_required
        []
        (resume (runner normal) "raw" values [])
    × Follows (runner normal) SessionState.running [] (submit (runner normal) reviewed [])
lifecycle_followed_example =
    lifecycle_followed (runner normal) stores_sessions start_input "raw" values reviewed []
      (λ id s redeemed loaded. ground arith) refl

abbrev service : Notification.Service
service = record {
  send = λ h n. none;
  save_notification = λ h n. none;
  new_id = λ h. "n1";
  now = λ h. pos 1000;
}

abbrev notifying : Runner
notifying = record (runner normal) { notifier = some (service_notifier service (λ h. [])) }

hands_over_fine : (hand_over notifying session "CAPTCHA detected" []).0.1 ≡ none
unfolding hand_over new_recovery_token notify_human_required Notification.notify
hands_over_fine = refl

hand_over_stores_link_example :
    (raw : String) × (notifying.random_token (Types.read_clock ∷ []) ≡ ok raw)
    × (notifying.tokens.save_token_hash
          (Types.draw_token ∷ Types.read_clock ∷ [])
          (notifying.sha256_hex raw)
          session.id
          (add (pos 1000) minute)
        ≡ none)
    × let n = stored_notification service [] session "CAPTCHA detected" ("/recovery/" <> raw) in
      (service.save_notification (Notification.read_clock ∷ Notification.new_id ∷ []) n ≡ none)
      × (n.action_url ≡ "/recovery/" <> raw)
hand_over_stores_link_example =
    hand_over_stores_link notifying service (λ h. []) session "CAPTCHA detected" [] refl
      hands_over_fine

-- A session of the year 317, and what its clock shows a second later.
new_session-deadline_example :
    (is_expired
        (new_session (runner normal) start_input "s1" (pos 10_000_000_000_000_000_000))
        (pos 10_000_000_001_000_000_000)
      ≡ true)
    ↔ ((10_000_001_800_000_000_000 < 10_000_000_001_000_000_000) ⊎ (153_722_867 < 30))
new_session-deadline_example =
    new_session-deadline (runner normal) start_input "s1" 10_000_000_000_000_000_000
      10_000_000_001_000_000_000 30 refl (omega arith) (omega arith) (omega arith)
