-- ===== src/Browser/Runner/Clicks.antt =====
-- When Submit clicks.
use careerpilot.Base.{
  suc, ◌≡◌, ◌↔◌, ◌⊎◌, inl, inr, true, false, List, ◌∷◌, arith, Bool-cases, Error, Result, ok, err,
  Result-cases,
}
use careerpilot.Browser.Types
use careerpilot.Browser.Types.{
  PageState, normal, captcha, Session, SessionState, Call, Runner, is_expired,
}
use careerpilot.Browser.Steps.{save_session}
use careerpilot.Browser.Steps.Quiet.{
  clicks, save_session-Quiet, expire-Quiet, pause_for_human-Quiet,
}
use careerpilot.Browser.Runner.{SubmitInput, after_click, after_submit, click, confirmed, submit}

module _ (r : Runner) where
  after_submit-clicks :
      (s : Session) (a : Result PageState) (h : List Call)
      → clicks (after_submit r s a h).1 ≡ clicks h
  unfolding after_submit after_click
  after_submit-clicks s (err e) h = omega (arith, pause_for_human-Quiet r s _ h)
  after_submit-clicks s (ok Types.submitted) h =
      ground (arith, save_session-Quiet r (record s { state = SessionState.completed }) h)
  after_submit-clicks s (ok normal) h = omega (arith, pause_for_human-Quiet r s _ h)
  after_submit-clicks s (ok _) h = omega (arith, pause_for_human-Quiet r s _ h)

  -- The session that a submission saves before it clicks.
  abbrev pub running : SubmitInput → Session
  running i = record i.session { state = SessionState.running }

  confirmed-clicks :
      (i : SubmitInput) (h : List Call)
      → ((s : Session) × (r.save_session h (running i) ≡ ok s)
          × (clicks (confirmed r i h).1 ≡ suc (clicks h)))
        ⊎ ((e : Error) × (r.save_session h (running i) ≡ err e)
            × (clicks (confirmed r i h).1 ≡ clicks h))
  unfolding confirmed click save_session
  confirmed-clicks i h = elim (Result-cases (r.save_session h (running i))) [
    | inl (s, saved) ↦
        let h' = Types.save_session (running i) ∷ h in
        let answer = r.driver.submit h' i.submit_selector in
        inl (
          s,
          saved,
          rw saved (
              omega
                (arith, after_submit-clicks s answer (Types.click_submit i.submit_selector ∷ h'))),
        )
    | inr (e, unsaved) ↦ inr (e, unsaved, rw unsaved (omega arith))
  ]

  -- Submit clicks exactly when the safety gate has passed, the session has not expired and the
  -- session could be saved as RUNNING, and then once; in every other case it does not click.
  pub submit_clicks_exact :
      (i : SubmitInput) (h : List Call)
      → let h' = Types.read_clock ∷ h in
        let h'' = (submit r i h).1 in
        ((clicks h'' ≡ suc (clicks h)) ⊎ (clicks h'' ≡ clicks h))
        × ((clicks h'' ≡ suc (clicks h)) ↔ (
            (i.gate_result.passed ≡ true)
            × (is_expired i.session (r.now h) ≡ false)
            × ((s : Session) × (r.save_session h' (running i) ≡ ok s))))
  unfolding submit
  submit_clicks_exact i h = elim (Bool-cases i.gate_result.passed) [
    | inr refused ↦
        let same : clicks (submit r i h).1 ≡ clicks h = ground arith in
        (inr same, (λ more. absurd (omega arith), λ all_held. absurd (ground arith)))
    | inl passed ↦
        let h' = Types.read_clock ∷ h in
        elim (Bool-cases (is_expired i.session (r.now h))) [
          | inl late ↦
              let same : clicks (submit r i h).1 ≡ clicks h =
                ground (arith, expire-Quiet r i.session h') in
              (inr same, (λ more. absurd (omega arith), λ all_held. absurd (ground arith)))
          | inr open_yet ↦ elim (confirmed-clicks i h') [
            | inl (s, saved, more) ↦
                let once : clicks (submit r i h).1 ≡ suc (clicks h) = ground arith in
                (inl once, (λ more. (passed, open_yet, (s, saved)), λ all_held. once))
            | inr (e, unsaved, none_more) ↦
                let same : clicks (submit r i h).1 ≡ clicks h = ground arith in
                (
                  inr same,
                  (
                    λ more. absurd (omega arith),
                    λ (held, in_time, (s, saved)). absurd (ground arith),
                  ),
                )
          ]
        ]
  ]
