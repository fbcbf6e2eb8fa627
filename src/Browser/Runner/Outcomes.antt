-- ===== src/Browser/Runner/Outcomes.antt =====
-- That the outcome and the state of the returned session agree.
pub mod Filling
use careerpilot.Base.{
  String, ◌≡◌, refl, inl, inr, true, not, Option, none, some, List, ◌∷◌, Bool-cases, leb_ℤ, Error,
  on_ok_cases, if_cases, wrap, Result, ok, err, M, start_of_day,
}
use careerpilot.Browser.Types
use careerpilot.Browser.Types.{
  FieldValue, PageState, normal, captcha, login_wall, unknown, navigate_error, unlisted, Session,
  SessionState, Outcome, Return, Call, Runner, is_expired, no_result,
}
use careerpilot.Browser.Recovery.{redeem}
use careerpilot.Browser.Steps.{stopped, handle_non_normal_state, checkpoint, save_session}
use careerpilot.Browser.Steps.Agree.{
  save_session_same, handle_non_normal_state-HandledAgrees, checkpoint-state, agrees, Agrees,
  Faithful, HandledAgrees, fail-Agrees, expire-Agrees, pause_for_human-Agrees,
}
use careerpilot.Browser.Runner.{
  after_handling, after_detection, after_fill, after_arrival, after_navigation, after_launch,
  after_look, load_and_resume, after_submit, confirmed, StartInput, SubmitInput,
  fill_and_checkpoint, navigate_and_fill, launch_failed, open_session, start, resume_session,
  resume, after_click, click, submit,
}
use careerpilot.Browser.Runner.Outcomes.Filling.{
  fill_and_checkpoint-Agrees, navigate_and_fill-Agrees,
}

module _ (r : Runner) (faithful : Faithful r) where
  launch_failed-Agrees :
      (s : Session) (e : Error) (h : List Call) → Agrees (launch_failed r s e h).0
  unfolding launch_failed
  launch_failed-Agrees s e h =
      on_ok_cases (λ x. Agrees x.0) (save_session r _ h).0 _ _ _ (λ e eq. tt) (λ t eq. tt)

  after_launch-Agrees :
      (i : StartInput) (s : Session) (o : Option Error) (h : List Call)
      → Agrees (after_launch r i s o h).0
  unfolding after_launch
  after_launch-Agrees i s (some e) h = launch_failed-Agrees s e h
  after_launch-Agrees i s none h =
      let s' = record s { state = SessionState.running } in
      let (saved, h') = save_session r s' h in
      on_ok_cases (λ x. Agrees x.0) saved _ _ h' (λ e eq. tt)
        λ t eq.
          navigate_and_fill-Agrees r faithful t i.start_url i.fields h'
            (rw (save_session_same r faithful s' h eq) refl)

  start-Agrees : (i : StartInput) (h : List Call) → Agrees (start r i h).0
  unfolding start open_session
  start-Agrees i h =
      let since = start_of_day (r.now h) in
      let h' = Types.count_started_since since ∷ Types.read_clock ∷ h in
      on_ok_cases (λ x. Agrees x.0) (r.count_started_since (Types.read_clock ∷ h) since)
        (λ e. stopped (wrap "browser: check session limit" e)) _ h' (λ e eq. tt)
        λ n eq.
          if_cases {A = M Call Return} (λ m. Agrees (m h').0)
            (leb_ℤ r.limits.browser_sessions_per_day n) _ _ (λ full. tt)
            (λ room. after_launch-Agrees i _ _ _)

  after_look-Agrees :
      (s : Session) (values : List FieldValue) (d : Result PageState) (h : List Call)
      → Agrees (after_look r s values d h).0
  unfolding after_look
  after_look-Agrees s values (err e) h = fail-Agrees r faithful s _ h
  after_look-Agrees s values (ok normal) h =
      let s' = record s { state = SessionState.resumed } in
      let (saved, h') = save_session r s' h in
      on_ok_cases (λ x. Agrees x.0) saved _ _ h' (λ e eq. tt)
        λ t eq.
          fill_and_checkpoint-Agrees r faithful t values h'
            (rw (save_session_same r faithful s' h eq) refl)
  after_look-Agrees s values (ok _) h = pause_for_human-Agrees r faithful s _ h

  resume_session-Agrees :
      (s : Session) (values : List FieldValue) (h : List Call)
      → Agrees (resume_session r s values h).0
  unfolding resume_session
  resume_session-Agrees s values h = elim (Bool-cases (is_expired s (r.now h))) [
    | inl late ↦ rw late (expire-Agrees r faithful s _)
    | inr open_yet ↦ rw open_yet (after_look-Agrees s values _ _)
  ]

  load_and_resume-Agrees :
      (id : String) (values : List FieldValue) (h : List Call)
      → Agrees (load_and_resume r id values h).0
  unfolding load_and_resume
  load_and_resume-Agrees id values h =
      on_ok_cases (λ x. Agrees x.0) (r.get_session h id)
        (λ e. stopped (wrap "browser: resume: load session" e)) (λ s. resume_session r s values)
        (Types.get_session id ∷ h) (λ e eq. tt) λ s eq. resume_session-Agrees s values _

  resume-Agrees :
      (raw : String) (values : List FieldValue) (h : List Call) → Agrees (resume r raw values h).0
  unfolding resume
  resume-Agrees raw values h =
      let (redeemed, h') = redeem r raw (r.now h) (Types.read_clock ∷ h) in
      on_ok_cases (λ x. Agrees x.0) redeemed (λ e. stopped (wrap "browser: resume" e))
        (λ id. load_and_resume r id values) h' (λ e eq. tt)
        λ id eq. load_and_resume-Agrees id values h'

  after_click-Agrees :
      (s : Session) (state : PageState) (h : List Call) → Agrees (after_click r s state h).0
  unfolding after_click
  after_click-Agrees s Types.submitted h =
      let s' = record s { state = SessionState.completed } in
      on_ok_cases (λ x. Agrees x.0) (save_session r s' h).0 _ _ _ (λ e eq. tt)
        λ t eq. rw (save_session_same r faithful s' h eq) refl
  after_click-Agrees s _ h = pause_for_human-Agrees r faithful s _ h

  after_submit-Agrees :
      (s : Session) (a : Result PageState) (h : List Call) → Agrees (after_submit r s a h).0
  unfolding after_submit
  after_submit-Agrees s (err e) h = pause_for_human-Agrees r faithful s _ h
  after_submit-Agrees s (ok state) h = after_click-Agrees s state h

  confirmed-Agrees : (i : SubmitInput) (h : List Call) → Agrees (confirmed r i h).0
  unfolding confirmed click
  confirmed-Agrees i h =
      let (saved, h') = save_session r (record i.session { state = SessionState.running }) h in
      on_ok_cases (λ x. Agrees x.0) saved (λ e. stopped e) (λ s. click r s i.submit_selector) h'
        (λ e eq. tt) λ s eq. after_submit-Agrees s _ _

  submit-Agrees : (i : SubmitInput) (h : List Call) → Agrees (submit r i h).0
  unfolding submit
  submit-Agrees i h =
      if_cases {A = M Call Return} (λ m. Agrees (m h).0) (not i.gate_result.passed) _ _
        (λ refused. tt)
        λ passed.
          if_cases {A = M Call Return} (λ m. Agrees (m (Types.read_clock ∷ h)).0)
            (is_expired i.session (r.now h)) _ _ (λ late. expire-Agrees r faithful i.session _)
            (λ open_yet. confirmed-Agrees i _)

  -- Over a session store that returns what it saves, every start, resume and submission that ends
  -- without an error returns a session whose state agrees with the outcome: HUMAN_REQUIRED,
  -- COMPLETED for a submission, FAILED or EXPIRED, and RUNNING or RESUMED when ready for review.
  pub outcome_matches_state :
      (i : StartInput) (raw : String) (values : List FieldValue) (j : SubmitInput) (h : List Call)
      → Agrees (start r i h).0 × Agrees (resume r raw values h).0 × Agrees (submit r j h).0
  outcome_matches_state i raw values j h =
      (start-Agrees i h, resume-Agrees raw values h, submit-Agrees j h)
