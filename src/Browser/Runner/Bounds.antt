-- ===== src/Browser/Runner/Bounds.antt =====
-- How often the runner launches the browser, navigates, fills and clicks.
pub mod Filling
pub mod Daily
mod Tests
use careerpilot.Base.{
  ℕ, ◌+◌, ◌≤◌, String, Option, none, some, List, ◌∷◌, arith, Error, on_ok_rule, Result, ok, err,
  Time, start_of_day,
}
use careerpilot.Browser.Types
use careerpilot.Browser.Types.{
  FieldValue, PageState, normal, Session, Return, Call, Runner, is_expired,
}
use careerpilot.Browser.Steps.{handle_non_normal_state, save_session}
use careerpilot.Browser.Steps.Quiet.{
  quiet_steps, launches, navigations, fills, clicks, save_session-Quiet, fail-Quiet, expire-Quiet,
  pause_for_human-Quiet, handle_non_normal_state-Quiet, checkpoint-Quiet,
}
use careerpilot.Browser.Runner.{
  after_handling, after_detection, after_fill, after_arrival, after_navigation, after_launch,
  after_look, load_and_resume, after_submit, confirmed, StartInput, SubmitInput,
  fill_and_checkpoint, navigate_and_fill, launch_failed, open_session, start, resume_session,
  resume, after_click, click, submit,
}
use careerpilot.Browser.Recovery.{redeem}
use careerpilot.Browser.Runner.Bounds.Filling.{
  AddsAtMost, fill_and_checkpoint-AddsAtMost, navigate_and_fill-AddsAtMost,
}

module _ (r : Runner) where
  launch_failed-AddsAtMost :
      (s : Session) (e : Error) (h : List Call) → AddsAtMost 0 0 0 0 h (launch_failed r s e h).1
  unfolding launch_failed save_session
  launch_failed-AddsAtMost s e h = ground arith

  after_launch-AddsAtMost :
      (i : StartInput) (s : Session) (o : Option Error) (h : List Call)
      → AddsAtMost 0 1 1 0 h (after_launch r i s o h).1
  unfolding after_launch
  after_launch-AddsAtMost i s (some e) h = omega (arith, launch_failed-AddsAtMost s e h)
  after_launch-AddsAtMost i s none h =
      let s' = record s { state = Types.SessionState.running } in
      let (saved, h') = save_session r s' h in
      on_ok_rule (λ x. AddsAtMost 0 1 1 0 h x.1) saved _ _ h' (λ e. omega quiet_steps)
        λ t. omega (
          arith,
          save_session-Quiet r s' h,
          navigate_and_fill-AddsAtMost r t i.start_url i.fields h',
        )

  open_session-AddsAtMost :
      (i : StartInput) (h : List Call) → AddsAtMost 1 1 1 0 h (open_session r i h).1
  unfolding open_session
  open_session-AddsAtMost i h =
      let h' = Types.new_id ∷ Types.read_clock ∷ h in
      omega (arith, after_launch-AddsAtMost i _ (r.driver.launch h') (Types.launch ∷ h'))

  start-AddsAtMost : (i : StartInput) (h : List Call) → AddsAtMost 1 1 1 0 h (start r i h).1
  unfolding start
  start-AddsAtMost i h =
      let since = start_of_day (r.now h) in
      ground
        (arith, open_session-AddsAtMost i (Types.count_started_since since ∷ Types.read_clock ∷ h))

  after_look-AddsAtMost :
      (s : Session) (values : List FieldValue) (d : Result PageState) (h : List Call)
      → AddsAtMost 0 0 1 0 h (after_look r s values d h).1
  unfolding after_look
  after_look-AddsAtMost s values (err e) h = omega quiet_steps
  after_look-AddsAtMost s values (ok normal) h =
      let s' = record s { state = Types.SessionState.resumed } in
      let (saved, h') = save_session r s' h in
      on_ok_rule (λ x. AddsAtMost 0 0 1 0 h x.1) saved _ _ h' (λ e. omega quiet_steps)
        λ t. omega (quiet_steps, fill_and_checkpoint-AddsAtMost r t values h')
  after_look-AddsAtMost s values (ok _) h = omega quiet_steps

  resume_session-AddsAtMost :
      (s : Session) (values : List FieldValue) (h : List Call)
      → AddsAtMost 0 0 1 0 h (resume_session r s values h).1
  unfolding resume_session
  resume_session-AddsAtMost s values h =
      let h' = Types.read_clock ∷ h in
      ground (
        arith,
        expire-Quiet r s h',
        after_look-AddsAtMost s values (r.driver.detect_state h') (Types.detect_state ∷ h'),
      )

  load_and_resume-AddsAtMost :
      (id : String) (values : List FieldValue) (h : List Call)
      → AddsAtMost 0 0 1 0 h (load_and_resume r id values h).1
  unfolding load_and_resume
  load_and_resume-AddsAtMost id values h =
      on_ok_rule (λ x. AddsAtMost 0 0 1 0 h x.1) (r.get_session h id) _ _ (Types.get_session id ∷ h)
        (λ e. omega arith)
        λ s. omega (arith, resume_session-AddsAtMost s values (Types.get_session id ∷ h))

  redeem-AddsAtMost :
      (raw : String) (now : Time) (h : List Call) → AddsAtMost 0 0 0 0 h (redeem r raw now h).1
  unfolding redeem
  redeem-AddsAtMost raw now h = ground arith

  resume-AddsAtMost :
      (raw : String) (values : List FieldValue) (h : List Call)
      → AddsAtMost 0 0 1 0 h (resume r raw values h).1
  unfolding resume
  resume-AddsAtMost raw values h =
      let h' = Types.read_clock ∷ h in
      let (redeemed, h'') = redeem r raw (r.now h) h' in
      on_ok_rule (λ x. AddsAtMost 0 0 1 0 h x.1) redeemed _ _ h''
        (λ e. omega (arith, redeem-AddsAtMost raw (r.now h) h'))
        λ id.
          omega
            (arith, redeem-AddsAtMost raw (r.now h) h', load_and_resume-AddsAtMost id values h'')

  after_click-AddsAtMost :
      (s : Session) (state : PageState) (h : List Call)
      → AddsAtMost 0 0 0 0 h (after_click r s state h).1
  unfolding after_click
  after_click-AddsAtMost s Types.submitted h = grind quiet_steps
  after_click-AddsAtMost s _ h = omega quiet_steps

  after_submit-AddsAtMost :
      (s : Session) (a : Result PageState) (h : List Call)
      → AddsAtMost 0 0 0 0 h (after_submit r s a h).1
  unfolding after_submit
  after_submit-AddsAtMost s (err e) h = omega quiet_steps
  after_submit-AddsAtMost s (ok state) h = after_click-AddsAtMost s state h

  click-AddsAtMost :
      (s : Session) (selector : String) (h : List Call)
      → AddsAtMost 0 0 0 1 h (click r s selector h).1
  unfolding click
  click-AddsAtMost s selector h = omega (
    arith,
    after_submit-AddsAtMost s (r.driver.submit h selector) (Types.click_submit selector ∷ h),
  )

  confirmed-AddsAtMost :
      (i : SubmitInput) (h : List Call) → AddsAtMost 0 0 0 1 h (confirmed r i h).1
  unfolding confirmed
  confirmed-AddsAtMost i h =
      let s' = record i.session { state = Types.SessionState.running } in
      let (saved, h') = save_session r s' h in
      on_ok_rule (λ x. AddsAtMost 0 0 0 1 h x.1) saved _ _ h' (λ e. omega quiet_steps)
        λ s. omega (quiet_steps, click-AddsAtMost s i.submit_selector h')

  submit-AddsAtMost : (i : SubmitInput) (h : List Call) → AddsAtMost 0 0 0 1 h (submit r i h).1
  unfolding submit
  submit-AddsAtMost i h =
      let h' = Types.read_clock ∷ h in
      ground (arith, expire-Quiet r i.session h', confirmed-AddsAtMost i h')

  -- Starting a session launches the browser, navigates and fills at most once and never clicks
  -- submit; resuming one fills at most once, and neither launches nor navigates again nor clicks;
  -- submitting clicks at most once, so it is never retried, and does none of the others.
  pub actions_bounded :
      (i : StartInput) (raw : String) (values : List FieldValue) (j : SubmitInput) (h : List Call)
      → AddsAtMost 1 1 1 0 h (start r i h).1
        × AddsAtMost 0 0 1 0 h (resume r raw values h).1
        × AddsAtMost 0 0 0 1 h (submit r j h).1
  actions_bounded i raw values j h =
      (start-AddsAtMost i h, resume-AddsAtMost raw values h, submit-AddsAtMost j h)
