-- ===== src/Browser/Steps/Agree.antt =====
-- That the shared steps return an outcome that agrees with the state of the session beside it.
use careerpilot.Base.{
  String, ◌≡◌, refl, ap, ◌∙◌, inl, inr, Bool, true, false, Option, none, some, List, arith, Error,
  on_ok_cases, ok, Result-cases, call, Time,
}
use careerpilot.Browser.Types
use careerpilot.Browser.Types.{
  PageState, normal, navigate_error, Session, SessionState, Outcome, Return, Call, Runner,
}
use careerpilot.Browser.Steps.{
  after_record, store_screenshot, paused, save_session, fail, expire, hand_over, pause_for_human,
  handle_non_normal_state, checkpoint,
}

-- What an outcome says of the session that comes with it.
abbrev pub agrees : Outcome → SessionState → Bool
agrees Outcome.human_required SessionState.human_required = true
agrees Outcome.submitted SessionState.completed = true
agrees Outcome.failed SessionState.failed = true
agrees Outcome.expired SessionState.expired = true
agrees Outcome.ready_for_review SessionState.running = true
agrees Outcome.ready_for_review SessionState.resumed = true
agrees _ _ = false

-- A return with no error has an outcome that its session's state agrees with.
abbrev pub Agrees : Return → Type 0
Agrees (result, none) = agrees result.outcome result.session.state ≡ true
Agrees (result, some e) = Unit

-- A session store that returns the session that it saved, and reads back stored sessions.
abbrev pub Faithful : Runner → Type 0
Faithful r = (h : List Call) (s s' : Session) → r.save_session h s ≡ ok s' → s' ≡ s

abbrev pub HandledAgrees : Option Return → Type 0
HandledAgrees none = Unit
HandledAgrees (some result) = Agrees result

module _ (r : Runner) (faithful : Faithful r) where
  pub fail-Agrees : (s : Session) (reason : String) (h : List Call) → Agrees (fail r s reason h).0
  unfolding fail
  fail-Agrees s reason h =
      let s' = record s { state = SessionState.failed; failure_reason = reason } in
      elim (Result-cases (r.save_session h s')) [
        | inl (t, e) ↦ ground (arith, faithful h s' t)
        | inr (t, e) ↦ ground arith
      ]

  pub expire-Agrees : (s : Session) (h : List Call) → Agrees (expire r s h).0
  unfolding expire
  expire-Agrees s h =
      let s' = record s { state = SessionState.expired } in
      elim (Result-cases (r.save_session h s')) [
        | inl (t, e) ↦ ground (arith, faithful h s' t)
        | inr (t, e) ↦ ground arith
      ]

  hand_over-Agrees :
      (s : Session) (reason : String) (h : List Call)
      → s.state ≡ SessionState.human_required
      → Agrees (hand_over r s reason h).0
  unfolding hand_over
  hand_over-Agrees s reason h e = ground arith

  pub save_session_same :
      (s : Session) (h : List Call) {s' : Session} → (save_session r s h).0 ≡ ok s' → s' ≡ s
  unfolding save_session
  save_session_same s h {s'} e = elim (Result-cases (r.save_session h s)) [
    | inl (t, e') ↦ ground (arith, faithful h s t)
    | inr (t, e') ↦ absurd (ground arith)
  ]

  pub pause_for_human-Agrees :
      (s : Session) (reason : String) (h : List Call) → Agrees (pause_for_human r s reason h).0
  unfolding pause_for_human
  pause_for_human-Agrees s reason h =
      let (shot, h₁) = call Types.take_screenshot r.driver.screenshot h in
      let (ref, h₂) = store_screenshot r s shot h₁ in
      let (url, h₃) = call Types.read_url r.driver.current_url h₂ in
      let s' = paused r s reason ref url in
      let (saved, h₄) = save_session r s' h₃ in
      on_ok_cases (λ x. Agrees x.0) saved _ _ h₄ (λ e h. tt)
        λ t e.
          hand_over-Agrees t reason h₄
            (ap {A = Session} (λ x. x.state) (save_session_same s' h₃ e) ∙ unfold paused in refl)

  pub handle_non_normal_state-HandledAgrees :
      (s : Session) (state : PageState) (h : List Call)
      → HandledAgrees (handle_non_normal_state r s state h).0
  unfolding handle_non_normal_state
  handle_non_normal_state-HandledAgrees s normal h = tt
  handle_non_normal_state-HandledAgrees s navigate_error h = fail-Agrees s _ h
  handle_non_normal_state-HandledAgrees s _ h = pause_for_human-Agrees s _ h

  after_record-state :
      (s : Session) (now : Time) (ref : String) (o : Option Error) (h : List Call) {s' : Session}
      → (after_record r s now ref o h).0 ≡ ok s'
      → s'.state ≡ s.state
  unfolding after_record
  after_record-state s now ref (some e) h eq = absurd (ground arith)
  after_record-state s now ref none h eq =
      ap {A = Session} (λ x. x.state) (save_session_same _ h eq)

  -- A checkpoint leaves the state of the session as it is.
  pub checkpoint-state :
      (s : Session) (step : String) (h : List Call) {s' : Session}
      → (checkpoint r s step h).0 ≡ ok s'
      → s'.state ≡ s.state
  unfolding checkpoint
  checkpoint-state s step h eq = after_record-state s _ _ _ _ eq
