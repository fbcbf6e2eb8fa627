-- ===== src/Browser/Runner/Outcomes/Filling.antt =====
-- That the outcome of a navigation and a filling agrees with the returned session.
use careerpilot.Base.{
  String, ◌≡◌, inl, inr, true, Option, none, some, List, ◌∷◌, Bool-cases, Error, on_ok_cases,
  Result, ok, err,
}
use careerpilot.Browser.Types
use careerpilot.Browser.Types.{
  FieldValue, PageState, normal, captcha, login_wall, unknown, navigate_error, unlisted, Session,
  SessionState, Outcome, Return, Call, Runner, is_expired, no_result,
}
use careerpilot.Browser.Steps.{handle_non_normal_state, checkpoint}
use careerpilot.Browser.Steps.Agree.{
  handle_non_normal_state-HandledAgrees, checkpoint-state, agrees, Agrees, Faithful, HandledAgrees,
  fail-Agrees, expire-Agrees,
}
use careerpilot.Browser.Runner.{
  after_handling, after_detection, after_fill, after_arrival, after_navigation, fill_and_checkpoint,
  navigate_and_fill,
}

module _ (r : Runner) (faithful : Faithful r) where
  after_handling-Agrees :
      (s : Session) (o : Option Return) (h : List Call)
      → agrees Outcome.ready_for_review s.state ≡ true
      → HandledAgrees o
      → Agrees (after_handling r s o h).0
  unfolding after_handling
  after_handling-Agrees s (some result) h on fine = fine
  after_handling-Agrees s none h on fine =
      let (saved, h') = checkpoint r s "form_section" h in
      on_ok_cases (λ x. Agrees x.0) saved _ _ h' (λ e eq. tt)
        λ t eq. rw (checkpoint-state r faithful s "form_section" h eq) on

  after_detection-Agrees :
      (s : Session) (d : Result PageState) (h : List Call)
      → agrees Outcome.ready_for_review s.state ≡ true
      → Agrees (after_detection r s d h).0
  unfolding after_detection
  after_detection-Agrees s (err e) h on = fail-Agrees r faithful s _ h
  after_detection-Agrees s (ok state) h on =
      let (o, h') = handle_non_normal_state r s state h in
      after_handling-Agrees s o h' on (handle_non_normal_state-HandledAgrees r faithful s state h)

  after_fill-Agrees :
      (s : Session) (o : Option Error) (h : List Call)
      → agrees Outcome.ready_for_review s.state ≡ true
      → Agrees (after_fill r s o h).0
  unfolding after_fill
  after_fill-Agrees s (some e) h on = fail-Agrees r faithful s _ h
  after_fill-Agrees s none h on = after_detection-Agrees s _ _ on

  pub fill_and_checkpoint-Agrees :
      (s : Session) (values : List FieldValue) (h : List Call)
      → agrees Outcome.ready_for_review s.state ≡ true
      → Agrees (fill_and_checkpoint r s values h).0
  unfolding fill_and_checkpoint
  fill_and_checkpoint-Agrees s values h on = after_fill-Agrees s _ _ on

  after_arrival-Agrees :
      (s : Session) (values : List FieldValue) (o : Option Return) (h : List Call)
      → agrees Outcome.ready_for_review s.state ≡ true
      → HandledAgrees o
      → Agrees (after_arrival r s values o h).0
  unfolding after_arrival
  after_arrival-Agrees s values (some result) h on fine = fine
  after_arrival-Agrees s values none h on fine = fill_and_checkpoint-Agrees s values h on

  after_navigation-Agrees :
      (s : Session) (url : String) (values : List FieldValue) (a : Result PageState) (h : List Call)
      → agrees Outcome.ready_for_review s.state ≡ true
      → Agrees (after_navigation r s url values a h).0
  unfolding after_navigation
  after_navigation-Agrees s url values (err e) h on = fail-Agrees r faithful s _ h
  after_navigation-Agrees s url values (ok state) h on =
      let there = record s { current_url = url } in
      let (o, h') = handle_non_normal_state r there state h in
      after_arrival-Agrees there values o h' on
        (handle_non_normal_state-HandledAgrees r faithful there state h)

  pub navigate_and_fill-Agrees :
      (s : Session) (url : String) (values : List FieldValue) (h : List Call)
      → agrees Outcome.ready_for_review s.state ≡ true
      → Agrees (navigate_and_fill r s url values h).0
  unfolding navigate_and_fill
  navigate_and_fill-Agrees s url values h on =
      let h' = Types.read_clock ∷ h in
      elim (Bool-cases (is_expired s (r.now h))) [
        | inl late ↦ rw late (expire-Agrees r faithful s h')
        | inr open_yet ↦ rw open_yet (after_navigation-Agrees s url values _ _ on)
      ]
