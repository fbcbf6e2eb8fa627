-- ===== src/Browser/Runner/Lifecycle.antt =====
-- That start, resume and submit follow the session lifecycle.
pub mod Filling
use careerpilot.Base.{
  String, ◌≡◌, refl, inl, inr, true, not, Option, none, some, List, ◌∷◌, arith, Option-cases, leb_ℤ,
  fields, Error, on_ok_rule, on_nil_rule, on_ok_cases, if_cases, wrap, error_text, Result, ok, err,
  M, Time, start_of_day,
}
use careerpilot.Browser.Types
use careerpilot.Browser.Types.{
  FieldValue, PageState, normal, captcha, Session, no_session, SessionState, Outcome, Return, Call,
  Runner, is_expired,
}
use careerpilot.Browser.Recovery.{redeem}
use careerpilot.Browser.Lifecycle.{Lived, Move, Follows, is_live, is_active}
use careerpilot.Browser.Steps.{stopped, handle_non_normal_state, checkpoint, save_session}
use careerpilot.Browser.Steps.Agree.{Faithful}
use careerpilot.Browser.Steps.Tracked.{
  HandledFollows, after_saving, save_session-Saves, fail-Follows, expire-Follows,
  pause_for_human-Follows, handle_non_normal_state-Follows, checkpoint-Saves,
}
use careerpilot.Browser.Runner.Lifecycle.Filling.{
  live_of_active, fill_and_checkpoint-Follows, navigate_and_fill-Follows,
}
use careerpilot.Browser.Runner.{
  after_handling, after_detection, after_fill, after_arrival, after_navigation, after_launch,
  after_look, load_and_resume, after_submit, confirmed, StartInput, SubmitInput,
  fill_and_checkpoint, navigate_and_fill, launch_failed, open_session, start, resume_session,
  resume, after_click, click, submit,
}

module _ (r : Runner) (faithful : Faithful r) {s₀ : SessionState} {h₀ : List Call} where
  -- Start, from the launch on.
  after_launch-Follows :
      (i : StartInput) (s : Session) (o : Option Error) (h : List Call)
      → s.state ≡ SessionState.starting
      → Lived r s₀ h₀ s.state h
      → Follows r s₀ h₀ (after_launch r i s o h)
  unfolding after_launch launch_failed
  after_launch-Follows i s (some e) h starting l =
      let s' = record s { state = SessionState.failed; failure_reason = error_text e } in
      after_saving r faithful s.state s' (save_session r s' h) _ _
        (save_session-Saves r faithful s' h (rw starting Move.unlaunched) l) (λ e. ground arith)
        λ t same l'. (t.state, l', λ e. refl)
  after_launch-Follows i s none h starting l =
      let s' = record s { state = SessionState.running } in
      after_saving r faithful s.state s' (save_session r s' h) _ _
        (save_session-Saves r faithful s' h (rw starting Move.launched) l) (λ e. ground arith)
        λ t same l'. navigate_and_fill-Follows r faithful t i.start_url i.fields _ (rw same refl) l'

  -- Resume, behind the token and the stored session.
  after_look-Follows :
      (s : Session) (values : List FieldValue) (d : Result PageState) (h : List Call)
      → s.state ≡ SessionState.human_required
      → Lived r s₀ h₀ s.state h
      → Follows r s₀ h₀ (after_look r s values d h)
  unfolding after_look
  after_look-Follows s values (err e) h waiting l =
      fail-Follows r faithful s _ h (rw waiting refl) l
  after_look-Follows s values (ok normal) h waiting l =
      let s' = record s { state = SessionState.resumed } in
      after_saving r faithful s.state s' (save_session r s' h) _ _
        (save_session-Saves r faithful s' h (rw waiting Move.resuming) l) (λ e. ground arith)
        λ t same l'. fill_and_checkpoint-Follows r faithful t values _ (rw same refl) l'
  after_look-Follows s values (ok _) h waiting l =
      pause_for_human-Follows r faithful s _ h (rw waiting refl) l

  resume_session-Follows :
      (s : Session) (values : List FieldValue) (h : List Call)
      → s.state ≡ SessionState.human_required
      → Lived r s₀ h₀ s.state h
      → Follows r s₀ h₀ (resume_session r s values h)
  unfolding resume_session
  resume_session-Follows s values h waiting l =
      let h' = Types.read_clock ∷ h in
      let l' = Lived.other Types.read_clock refl l in
      if_cases {A = M Call Return} (λ m. Follows r s₀ h₀ (m h')) (is_expired s (r.now h)) _ _
        (λ late. expire-Follows r faithful s h' (rw waiting refl) l')
        (λ open_yet. after_look-Follows s values _ _ waiting (Lived.other _ refl l'))

  -- Submit, from the click on.
  after_click-Follows :
      (s : Session) (state : PageState) (h : List Call)
      → s.state ≡ SessionState.running
      → Lived r s₀ h₀ s.state h
      → Follows r s₀ h₀ (after_click r s state h)
  unfolding after_click
  after_click-Follows s Types.submitted h running l =
      let s' = record s { state = SessionState.completed } in
      after_saving r faithful s.state s' (save_session r s' h) _ _
        (save_session-Saves r faithful s' h (rw running Move.completing) l) (λ e. ground arith)
        λ t same l'. (t.state, l', λ e. refl)
  after_click-Follows s _ h running l = pause_for_human-Follows r faithful s _ h (rw running refl) l

  after_submit-Follows :
      (s : Session) (a : Result PageState) (h : List Call)
      → s.state ≡ SessionState.running
      → Lived r s₀ h₀ s.state h
      → Follows r s₀ h₀ (after_submit r s a h)
  unfolding after_submit
  after_submit-Follows s (err e) h running l =
      pause_for_human-Follows r faithful s _ h (rw running refl) l
  after_submit-Follows s (ok state) h running l = after_click-Follows s state h running l

  confirmed-Follows :
      (i : SubmitInput) (h : List Call)
      → is_active i.session.state ≡ true
      → Lived r s₀ h₀ i.session.state h
      → Follows r s₀ h₀ (confirmed r i h)
  unfolding confirmed click
  confirmed-Follows i h on l =
      let s' = record i.session { state = SessionState.running } in
      after_saving r faithful i.session.state s' (save_session r s' h) (λ e. stopped e)
        (λ s. click r s i.submit_selector)
        (save_session-Saves r faithful s' h (Move.submitting on) l) (λ e. ground arith)
        λ t same l'. after_submit-Follows t _ _ same (Lived.other _ refl l')

-- The session that a redemption of the link leads to, if it is loaded, waits for a person.
abbrev pub LinkWaits : Runner → String → List Call → Type 0
LinkWaits r raw h =
    let (redeemed, h') = redeem r raw (r.now h) (Types.read_clock ∷ h) in
    (id : String) (s : Session)
    → redeemed ≡ ok id
    → r.get_session h' id ≡ ok s
    → s.state ≡ SessionState.human_required

module _ (r : Runner) (faithful : Faithful r) where
  start-Follows : (i : StartInput) (h : List Call) → Follows r SessionState.starting h (start r i h)
  unfolding start open_session
  start-Follows i h =
      let since = start_of_day (r.now h) in
      let h' = Types.count_started_since since ∷ Types.read_clock ∷ h in
      let l =
        Lived.other (Types.count_started_since since) refl
          (Lived.other Types.read_clock refl Lived.begun) in
      on_ok_rule {B = Return} (λ m. Follows r SessionState.starting h m)
        (r.count_started_since (Types.read_clock ∷ h) since)
        (λ e. stopped (wrap "browser: check session limit" e)) _ h'
        (λ e. (SessionState.starting, l, λ none_yet. absurd (ground arith)))
        λ n.
          if_cases {A = M Call Return} (λ m. Follows r SessionState.starting h (m h'))
            (leb_ℤ r.limits.browser_sessions_per_day n) _ _
            (λ full. (SessionState.starting, l, λ none_yet. absurd (ground arith)))
            λ room.
              after_launch-Follows r faithful i _ _ _ refl
                (Lived.other _ refl (Lived.other _ refl (Lived.other _ refl l)))

  redeem-Lived :
      (raw : String) (now : Time) (h : List Call) {s₀ : SessionState} {h₀ : List Call}
      → Lived r s₀ h₀ s₀ h
      → Lived r s₀ h₀ s₀ (redeem r raw now h).1
  unfolding redeem
  redeem-Lived raw now h {s₀} {h₀} l =
      let hash = r.sha256_hex raw in
      let looked = Lived.other (Types.lookup_by_hash hash now) refl l in
      let revoked = Lived.other (Types.revoke_by_hash hash) refl looked in
      on_ok_cases {B = Result String} (λ m. Lived r s₀ h₀ s₀ m.1)
        (r.tokens.lookup_by_hash h hash now) _ _ _ (λ e eq. looked)
        λ found eq. elim (Option-cases found) [
          | inl nobody ↦ rw nobody looked
          | inr (id, known) ↦ rw known (
              on_nil_rule {B = Result String} (λ m. Lived r s₀ h₀ s₀ m.1)
                (r.tokens.revoke_by_hash (Types.lookup_by_hash hash now ∷ h) hash)
                (λ e. err (wrap "browser: revoke recovery token after redemption" e)) _ _
                (λ e. revoked) revoked)
        ]

  load_and_resume-Follows :
      (id : String) (values : List FieldValue) (h : List Call) {h₀ : List Call}
      → ((s : Session) → r.get_session h id ≡ ok s → s.state ≡ SessionState.human_required)
      → Lived r SessionState.human_required h₀ SessionState.human_required h
      → Follows r SessionState.human_required h₀ (load_and_resume r id values h)
  unfolding load_and_resume
  load_and_resume-Follows id values h {h₀} waits l =
      let l' = Lived.other (Types.get_session id) refl l in
      on_ok_cases {B = Return} (λ m. Follows r SessionState.human_required h₀ m)
        (r.get_session h id) (λ e. stopped (wrap "browser: resume: load session" e))
        (λ s. resume_session r s values) (Types.get_session id ∷ h)
        (λ e eq. (SessionState.human_required, l', λ none_yet. absurd (ground arith)))
        λ s eq.
          let waiting = waits s eq in
          resume_session-Follows r faithful s values _ waiting (rw waiting l')

  resume-Follows :
      (raw : String) (values : List FieldValue) (h : List Call)
      → LinkWaits r raw h
      → Follows r SessionState.human_required h (resume r raw values h)
  unfolding resume
  resume-Follows raw values h waits =
      let (redeemed, h') = redeem r raw (r.now h) (Types.read_clock ∷ h) in
      let l = redeem-Lived raw (r.now h) (Types.read_clock ∷ h) (Lived.other _ refl Lived.begun) in
      on_ok_cases {B = Return} (λ m. Follows r SessionState.human_required h m) redeemed
        (λ e. stopped (wrap "browser: resume" e)) (λ id. load_and_resume r id values) h'
        (λ e eq. (SessionState.human_required, l, λ none_yet. absurd (ground arith)))
        λ id eq. load_and_resume-Follows id values h' (λ s loaded. waits id s eq loaded) l

  submit-Follows :
      (i : SubmitInput) (h : List Call)
      → is_active i.session.state ≡ true
      → Follows r i.session.state h (submit r i h)
  unfolding submit
  submit-Follows i h on =
      let l = Lived.other Types.read_clock refl Lived.begun in
      if_cases {A = M Call Return} (λ m. Follows r i.session.state h (m h))
        (not i.gate_result.passed) _ _
        (λ refused. (i.session.state, Lived.begun, λ none_yet. absurd (ground arith)))
        λ passed.
          if_cases {A = M Call Return} (λ m. Follows r i.session.state h (m (Types.read_clock ∷ h)))
            (is_expired i.session (r.now h)) _ _
            (λ late. expire-Follows r faithful i.session _ (live_of_active i.session.state on) l)
            (λ open_yet. confirmed-Follows r faithful i _ on l)

  -- Over a session store that returns what it saves, every run follows the session lifecycle, on
  -- every error too: a start moves the stored state from STARTING, a resume by a link whose session
  -- is loaded as HUMAN_REQUIRED moves it from there, a submission of a RUNNING or RESUMED session
  -- from its state, each saving that succeeds is one of the lifecycle's moves, and a run that ends
  -- without an error returns a session in the state that is then stored.
  pub lifecycle_followed :
      (i : StartInput) (raw : String) (values : List FieldValue) (j : SubmitInput) (h : List Call)
      → LinkWaits r raw h
      → is_active j.session.state ≡ true
      → Follows r SessionState.starting h (start r i h)
        × Follows r SessionState.human_required h (resume r raw values h)
        × Follows r j.session.state h (submit r j h)
  lifecycle_followed i raw values j h waits on =
      (start-Follows i h, resume-Follows raw values h waits, submit-Follows j h on)
