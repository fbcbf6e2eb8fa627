-- ===== src/Browser/Steps/Tracked.antt =====
-- That the shared steps follow the session lifecycle.
use careerpilot.Base.{
  String, ◌<>◌, ◌≡◌, refl, ap, ◌∙◌, ◌≢◌, inl, inr, true, Option, none, some, List, ◌∷◌, arith,
  Error, on_ok_rule, on_nil_rule, wrap, Result, ok, err, Result-cases, M, pure, call, on_ok, Time,
  Duration,
}
use careerpilot.Browser.Types
use careerpilot.Browser.Types.{
  PageState, normal, navigate_error, Session, SessionState, Outcome, Return, Call, Runner,
  Screenshot,
}
use careerpilot.Browser.Recovery.{RecoveryToken, new_recovery_token}
use careerpilot.Browser.Lifecycle.{Lived, Move, Follows, is_live, is_active}
use careerpilot.Browser.Steps.Agree.{Faithful}
use careerpilot.Browser.Steps.{
  stopped, settled, after_record, notify, store_screenshot, paused, save_session, fail, expire,
  hand_over, pause_for_human, handle_non_normal_state, checkpoint,
}

-- What a handled page state has come to: nothing that the store knows of, or a run to its end.
abbrev pub HandledFollows :
    Runner → SessionState → List Call → SessionState → Option Return × List Call → Type 0
HandledFollows r s₀ h₀ s (none, h) = Lived r s₀ h₀ s h
HandledFollows r s₀ h₀ s (some x, h) = Follows r s₀ h₀ (x, h)

-- What a saving has come to: an error and the old state, or the session asked for and its state.
abbrev pub Saves :
    Runner → SessionState → List Call → SessionState → Session → Result Session × List Call → Type 0
Saves r s₀ h₀ s x (err e, h) = Lived r s₀ h₀ s h
Saves r s₀ h₀ s x (ok t, h) = (t.state ≡ x.state) × Lived r s₀ h₀ t.state h

module _ (r : Runner) (faithful : Faithful r) {s₀ : SessionState} {h₀ : List Call} where
  pub save_session-Saves :
      (x : Session) (h : List Call) {s : SessionState}
      → Move s x.state
      → Lived r s₀ h₀ s h
      → Saves r s₀ h₀ s x (save_session r x h)
  unfolding save_session
  save_session-Saves x h {s} move l = elim (Result-cases (r.save_session h x)) [
    | inl (t, e) ↦
        let same = faithful h x t e in rw (e, same) (refl, Lived.saved x (e ∙ ap ok same) move l)
    | inr (e, eq) ↦ rw eq (Lived.refused x e eq l)
  ]

  settled-Follows :
      (o : Outcome) (s : SessionState) (x : Session) (m : Result Session × List Call)
      → Saves r s₀ h₀ s x m
      → Follows r s₀ h₀ (settled o m.0, m.1)
  unfolding settled
  settled-Follows o s x (ok t, h) (same, l) = (t.state, l, λ e. refl)
  settled-Follows o s x (err e, h) l = (s, l, λ e. absurd (ground arith))

  -- What follows a saving: it stops with an error, or goes on with the session and its state.
  pub after_saving :
      (s : SessionState) (x : Session) (m : Result Session × List Call) (f : Error → Return)
      (k : Session → M Call Return)
      → Saves r s₀ h₀ s x m
      → ((e : Error) → (f e).1 ≢ none)
      → ((t : Session) → t.state ≡ x.state → Lived r s₀ h₀ t.state m.1 → Follows r s₀ h₀ (k t m.1))
      → Follows r s₀ h₀ (on_ok m.0 f k m.1)
  after_saving s x (ok t, h) f k (same, l) failed held = held t same l
  after_saving s x (err e, h) f k l failed held = (s, l, λ none_yet. absurd (failed e none_yet))

  pub fail-Follows :
      (x : Session) (reason : String) (h : List Call)
      → is_live x.state ≡ true
      → Lived r s₀ h₀ x.state h
      → Follows r s₀ h₀ (fail r x reason h)
  unfolding fail
  fail-Follows x reason h on l =
      let x' = record x { state = SessionState.failed; failure_reason = reason } in
      settled-Follows Outcome.failed x.state x' (save_session r x' h)
        (save_session-Saves x' h (Move.failing on) l)

  pub expire-Follows :
      (x : Session) (h : List Call)
      → is_live x.state ≡ true
      → Lived r s₀ h₀ x.state h
      → Follows r s₀ h₀ (expire r x h)
  unfolding expire
  expire-Follows x h on l =
      let x' = record x { state = SessionState.expired } in
      settled-Follows Outcome.expired x.state x' (save_session r x' h)
        (save_session-Saves x' h (Move.expiring on) l)

  store_screenshot-Lived :
      (x : Session) (shot : Result Screenshot) (h : List Call) {s : SessionState}
      → Lived r s₀ h₀ s h
      → Lived r s₀ h₀ s (store_screenshot r x shot h).1
  unfolding store_screenshot
  store_screenshot-Lived x (ok shot) h l = Lived.other _ refl l
  store_screenshot-Lived x (err e) h l = l

  notify-Lived :
      (x : Session) (reason url : String) (h : List Call) {s : SessionState}
      → Lived r s₀ h₀ s h
      → Lived r s₀ h₀ s (notify r x reason url h).1
  unfolding notify
  notify-Lived x reason url h {s} l =
      let tell : Option (List Call → String → String → String → String → Option Error)
          → M Call (Option Error) =
        λ n. elim n [
          | none ↦ pure none
          | some send ↦
              call (Types.notify_human_required x.id x.application_id reason url)
                (λ h. send h x.id x.application_id reason url)
        ] in
      elim r.notifier as (λ n. Lived r s₀ h₀ s (tell n h).1) [
        | none ↦ l
        | some send ↦ Lived.other _ refl l
      ]

  new_recovery_token-Lived :
      (id : String) (now : Time) (ttl : Duration) (h : List Call) {s : SessionState}
      → Lived r s₀ h₀ s h
      → Lived r s₀ h₀ s (new_recovery_token r id now ttl h).1
  unfolding new_recovery_token
  new_recovery_token-Lived id now ttl h {s} l =
      on_ok_rule {B = Result RecoveryToken} (λ m. Lived r s₀ h₀ s m.1) (r.random_token h) _ _
        (Types.draw_token ∷ h) (λ e. Lived.other _ refl l) (λ raw. Lived.other _ refl l)

  hand_over-Lived :
      (x : Session) (reason : String) (h : List Call) {s : SessionState}
      → Lived r s₀ h₀ s h
      → Lived r s₀ h₀ s (hand_over r x reason h).1
  unfolding hand_over
  hand_over-Lived x reason h {s} l =
      let (drawn, h₂) = new_recovery_token r x.id (r.now h) r.recovery_ttl (Types.read_clock ∷ h) in
      let l₂ =
        new_recovery_token-Lived x.id (r.now h) r.recovery_ttl (Types.read_clock ∷ h)
          (Lived.other _ refl l) in
      on_ok_rule {B = Return} (λ m. Lived r s₀ h₀ s m.1) drawn _ _ h₂ (λ e. l₂)
        λ token.
          let h₃ = Types.save_token_hash token.hash x.id token.expires_at ∷ h₂ in
          let l₃ = Lived.other (Types.save_token_hash token.hash x.id token.expires_at) refl l₂ in
          let (unsent, h₄) = notify r x reason ("/recovery/" <> token.raw) h₃ in
          let l₄ = notify-Lived x reason ("/recovery/" <> token.raw) h₃ l₃ in
          on_nil_rule {B = Return} (λ m. Lived r s₀ h₀ s m.1)
            (r.tokens.save_token_hash h₂ token.hash x.id token.expires_at)
            (λ e. stopped (wrap "browser: save recovery token" e)) _ h₃ (λ e. l₃)
            (on_nil_rule {B = Return} (λ m. Lived r s₀ h₀ s m.1) unsent _ _ h₄ (λ e. l₄) l₄)

  hand_over-Follows :
      (x : Session) (reason : String) (h : List Call)
      → Lived r s₀ h₀ x.state h
      → Follows r s₀ h₀ (hand_over r x reason h)
  unfolding hand_over new_recovery_token
  hand_over-Follows x reason h l = (x.state, hand_over-Lived x reason h l, λ e. ground arith)

  pub pause_for_human-Follows :
      (x : Session) (reason : String) (h : List Call)
      → is_live x.state ≡ true
      → Lived r s₀ h₀ x.state h
      → Follows r s₀ h₀ (pause_for_human r x reason h)
  unfolding pause_for_human
  pause_for_human-Follows x reason h on l =
      let (shot, h₁) = call Types.take_screenshot r.driver.screenshot h in
      let (ref, h₂) = store_screenshot r x shot h₁ in
      let (url, h₃) = call Types.read_url r.driver.current_url h₂ in
      let x' = paused r x reason ref url in
      let l₂ = store_screenshot-Lived x shot h₁ (Lived.other _ refl l) in
      let stored =
        save_session-Saves x' h₃ {s = x.state} (unfold paused in Move.pausing on)
          (Lived.other Types.read_url refl l₂) in
      after_saving x.state x' (save_session r x' h₃) (λ e. stopped e) (λ t. hand_over r t reason)
        stored (λ e. ground arith) (λ t same l. hand_over-Follows t reason _ l)

  pub handle_non_normal_state-Follows :
      (x : Session) (state : PageState) (h : List Call)
      → is_live x.state ≡ true
      → Lived r s₀ h₀ x.state h
      → HandledFollows r s₀ h₀ x.state (handle_non_normal_state r x state h)
  unfolding handle_non_normal_state
  handle_non_normal_state-Follows x normal h on l = l
  handle_non_normal_state-Follows x navigate_error h on l = fail-Follows x _ h on l
  handle_non_normal_state-Follows x _ h on l = pause_for_human-Follows x _ h on l

  after_record-Saves :
      (x : Session) (now : Time) (ref : String) (o : Option Error) (h : List Call)
      → is_active x.state ≡ true
      → Lived r s₀ h₀ x.state h
      → Saves r s₀ h₀ x.state x (after_record r x now ref o h)
  unfolding after_record
  after_record-Saves x now ref (some e) h on l = l
  after_record-Saves x now ref none h on l =
      save_session-Saves (record x { last_checkpoint_at = now; screenshot_ref = ref }) h
        (Move.checkpointed on) l

  pub checkpoint-Saves :
      (x : Session) (step : String) (h : List Call)
      → is_active x.state ≡ true
      → Lived r s₀ h₀ x.state h
      → Saves r s₀ h₀ x.state x (checkpoint r x step h)
  unfolding checkpoint
  checkpoint-Saves x step h on l =
      let shot = r.driver.screenshot h in
      let h₁ = Types.take_screenshot ∷ h in
      let l₂ = store_screenshot-Lived x shot h₁ (Lived.other _ refl l) in
      after_record-Saves x _ _ _ _ on
        (Lived.other _ refl (Lived.other _ refl (Lived.other _ refl l₂)))
