-- ===== src/Browser/Runner/Guards.antt =====
-- What keeps the runner from acting: the safety gate, the daily limit, the session's expiry, and a
-- page that is not normal.
use careerpilot.Base.{
  String, ◌≡◌, refl, ◌≢◌, ◌⊎◌, inl, inr, true, false, none, List, ◌∷◌, arith, ℤ, ◌≤ℤ◌, Result, ok,
  err, start_of_day,
}
use careerpilot.Browser.Types
use careerpilot.Browser.Types.{
  FieldValue, PageState, normal, captcha, login_wall, unknown, navigate_error, unlisted, Session,
  Call, Runner, is_expired, no_result,
}
use careerpilot.Browser.Steps.{expire, handle_non_normal_state}
use careerpilot.Browser.Steps.Quiet.{fills, fail-Quiet, expire-Quiet, pause_for_human-Quiet}
use careerpilot.Browser.Runner.{
  after_navigation, after_arrival, after_look, StartInput, SubmitInput, navigate_and_fill, start,
  resume_session, submit,
}

normal_or_odd : (a : Result PageState) → (a ≡ ok normal) ⊎ (a ≢ ok normal)
normal_or_odd (err e) = inr (λ same. absurd (ground arith))
normal_or_odd (ok normal) = inl refl
normal_or_odd (ok _) = inr (λ same. absurd (ground arith))

module _ (r : Runner) where
  -- With a gate that has not passed, a submission is refused: it makes no call at all, and
  -- returns no result but an error.
  pub submit_refused :
      (i : SubmitInput) (h : List Call)
      → i.gate_result.passed ≡ false
      → ((submit r i h).1 ≡ h) × ((submit r i h).0.0 ≡ no_result) × ((submit r i h).0.1 ≢ none)
  unfolding submit
  submit_refused i h refused = ground arith

  -- A submission whose session has expired saves it as EXPIRED and calls nothing else.
  pub submit_expired :
      (i : SubmitInput) (h : List Call)
      → i.gate_result.passed ≡ true
      → is_expired i.session (r.now h) ≡ true
      → (submit r i h).1
        ≡ Types.save_session (record i.session { state = Types.SessionState.expired })
          ∷ Types.read_clock
          ∷ h
  unfolding submit expire
  submit_expired i h passed late = ground arith

  -- With the daily session limit reached, a start fails and calls nothing but the clock and the
  -- count: no browser is launched and no session saved.
  pub start_at_limit :
      (i : StartInput) (h : List Call) {n : ℤ}
      → let since = start_of_day (r.now h) in
        r.count_started_since (Types.read_clock ∷ h) since ≡ ok n
        → r.limits.browser_sessions_per_day ≤ℤ n
        → ((start r i h).1 ≡ Types.count_started_since since ∷ Types.read_clock ∷ h)
          × ((start r i h).0.0 ≡ no_result)
          × ((start r i h).0.1 ≢ none)
  unfolding start
  start_at_limit i h counted full = ground arith

  -- Unless the page that was reached is a normal one, nothing is filled in.
  after_navigation_quiet :
      (s : Session) (url : String) (values : List FieldValue) (a : Result PageState) (h : List Call)
      → a ≢ ok normal
      → fills (after_navigation r s url values a h).1 ≡ fills h
  unfolding after_navigation after_arrival handle_non_normal_state
  after_navigation_quiet s url values (err e) h odd = (fail-Quiet r s _ h).1
  after_navigation_quiet s url values (ok normal) h odd = absurd (odd refl)
  after_navigation_quiet s url values (ok navigate_error) h odd = (fail-Quiet r _ _ h).1
  after_navigation_quiet s url values (ok _) h odd = (pause_for_human-Quiet r _ _ h).1

  after_look_quiet :
      (s : Session) (values : List FieldValue) (d : Result PageState) (h : List Call)
      → d ≢ ok normal
      → fills (after_look r s values d h).1 ≡ fills h
  unfolding after_look
  after_look_quiet s values (err e) h odd = (fail-Quiet r s _ h).1
  after_look_quiet s values (ok normal) h odd = absurd (odd refl)
  after_look_quiet s values (ok _) h odd = (pause_for_human-Quiet r s _ h).1

  -- On a first visit the page navigated to is a normal one or nothing is filled in; on a way back
  -- the page is seen to be a normal one or nothing is filled in.
  pub fill_needs_normal :
      (s : Session) (url : String) (values : List FieldValue) (h : List Call)
      → let h' = Types.read_clock ∷ h in
        ((r.driver.navigate h' url ≡ ok normal)
          ⊎ (fills (navigate_and_fill r s url values h).1 ≡ fills h))
        × ((r.driver.detect_state h' ≡ ok normal)
            ⊎ (fills (resume_session r s values h).1 ≡ fills h))
  unfolding navigate_and_fill resume_session
  fill_needs_normal s url values h =
      let h' = Types.read_clock ∷ h in
      let expired = expire-Quiet r s h' in
      (
        elim (normal_or_odd (r.driver.navigate h' url)) [
          | inl fine ↦ inl fine
          | inr odd ↦
              let quiet = after_navigation_quiet s url values _ (Types.navigate url ∷ h') odd in
              inr (ground (arith, expired, quiet))
        ],
        elim (normal_or_odd (r.driver.detect_state h')) [
          | inl fine ↦ inl fine
          | inr odd ↦
              let quiet = after_look_quiet s values _ (Types.detect_state ∷ h') odd in
              inr (ground (arith, expired, quiet))
        ],
      )
