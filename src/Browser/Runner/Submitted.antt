-- ===== src/Browser/Runner/Submitted.antt =====
-- What a SUBMITTED outcome rests on.
use careerpilot.Base.{
  String, ◌≡◌, refl, ◌≢◌, inl, inr, true, false, List, ◌∷◌, arith, Bool-cases, on_ok_cases, Result,
  ok, err, Result-cases, call,
}
use careerpilot.Browser.Types
use careerpilot.Browser.Types.{
  PageState, normal, captcha, Session, SessionState, Outcome, Return, Call, Runner, is_expired,
}
use careerpilot.Browser.Steps.{
  store_screenshot, paused, expire, hand_over, pause_for_human, save_session,
}
use careerpilot.Browser.Runner.{SubmitInput, after_click, after_submit, click, confirmed, submit}

module _ (r : Runner) where
  hand_over-outcome :
      (s : Session) (reason : String) (h : List Call)
      → (hand_over r s reason h).0.0.outcome ≢ Outcome.submitted
  unfolding hand_over
  hand_over-outcome s reason h = ground arith

  pause_for_human-outcome :
      (s : Session) (reason : String) (h : List Call)
      → (pause_for_human r s reason h).0.0.outcome ≢ Outcome.submitted
  unfolding pause_for_human
  pause_for_human-outcome s reason h =
      let (shot, h₁) = call Types.take_screenshot r.driver.screenshot h in
      let (ref, h₂) = store_screenshot r s shot h₁ in
      let (url, h₃) = call Types.read_url r.driver.current_url h₂ in
      let (saved, h₄) = save_session r (paused r s reason ref url) h₃ in
      on_ok_cases {B = Return} (λ x. x.0.0.outcome ≢ Outcome.submitted) saved _ _ h₄
        (λ e eq. ground arith) λ t eq. hand_over-outcome t reason h₄

  expire-outcome : (s : Session) (h : List Call) → (expire r s h).0.0.outcome ≢ Outcome.submitted
  unfolding expire
  expire-outcome s h = ground arith

  after_submit-outcome :
      (s : Session) (a : Result PageState) (h : List Call)
      → (after_submit r s a h).0.0.outcome ≡ Outcome.submitted
      → a ≡ ok Types.submitted
  unfolding after_submit after_click
  after_submit-outcome s (err e) h done = absurd (pause_for_human-outcome s _ h done)
  after_submit-outcome s (ok Types.submitted) h done = refl
  after_submit-outcome s (ok normal) h done = absurd (pause_for_human-outcome s _ h done)
  after_submit-outcome s (ok _) h done = absurd (pause_for_human-outcome s _ h done)

  -- The click that a submission makes when the session is saved, and what it returned.
  pub record IsConfirmed (i : SubmitInput) (h : List Call) : Type 0 where
    pub gate_passed : i.gate_result.passed ≡ true
    pub in_time : is_expired i.session (r.now h) ≡ false
    pub confirmed_by_page :
        let running = record i.session { state = SessionState.running } in
        r.driver.submit (Types.save_session running ∷ Types.read_clock ∷ h) i.submit_selector
        ≡ ok Types.submitted

  confirmed-outcome :
      (i : SubmitInput) (h : List Call)
      → (confirmed r i h).0.0.outcome ≡ Outcome.submitted
      → let running = record i.session { state = SessionState.running } in
        r.driver.submit (Types.save_session running ∷ h) i.submit_selector ≡ ok Types.submitted
  unfolding confirmed click save_session
  confirmed-outcome i h done =
      let running = record i.session { state = SessionState.running } in
      elim (Result-cases (r.save_session h running)) [
        | inl (s, eq) ↦ after_submit-outcome s _ _ (rw eq at done)
        | inr (e, eq) ↦ absurd (ground arith)
      ]

  -- A submission ends in SUBMITTED only when its gate had passed, its session had not expired, and
  -- the click was answered by a page that showed the submission as made.
  pub submitted_needs_signal :
      (i : SubmitInput) (h : List Call)
      → (submit r i h).0.0.outcome ≡ Outcome.submitted
      → IsConfirmed i h
  unfolding submit
  submitted_needs_signal i h done = elim (Bool-cases i.gate_result.passed) [
    | inr refused ↦ absurd (ground arith)
    | inl passed ↦ elim (Bool-cases (is_expired i.session (r.now h))) [
      | inl late ↦ absurd (ground (arith, expire-outcome i.session (Types.read_clock ∷ h)))
      | inr open_yet ↦ record {
        gate_passed = passed;
        in_time = open_yet;
        confirmed_by_page = confirmed-outcome i (Types.read_clock ∷ h) (ground arith);
      }
    ]
  ]
