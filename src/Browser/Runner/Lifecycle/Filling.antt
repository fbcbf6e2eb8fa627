-- ===== src/Browser/Runner/Lifecycle/Filling.antt =====
-- That a navigation and a filling follow the session lifecycle.
use careerpilot.Base.{
  String, ◌≡◌, refl, true, Option, none, some, List, ◌∷◌, arith, Error, if_cases, Result, ok, err,
  M,
}
use careerpilot.Browser.Types
use careerpilot.Browser.Types.{
  FieldValue, PageState, normal, captcha, Session, no_session, SessionState, Outcome, Return, Call,
  Runner, is_expired,
}
use careerpilot.Browser.Lifecycle.{Lived, Follows, is_live, is_active}
use careerpilot.Browser.Steps.{stopped, handle_non_normal_state, checkpoint}
use careerpilot.Browser.Steps.Agree.{Faithful}
use careerpilot.Browser.Steps.Tracked.{
  HandledFollows, after_saving, fail-Follows, expire-Follows, handle_non_normal_state-Follows,
  checkpoint-Saves,
}
use careerpilot.Browser.Runner.{
  after_handling, after_detection, after_fill, after_arrival, after_navigation, fill_and_checkpoint,
  navigate_and_fill,
}

-- The states in which automation may act are among those that an end can follow.
pub live_of_active : (s : SessionState) → is_active s ≡ true → is_live s ≡ true
live_of_active s on = ground arith

module _ (r : Runner) (faithful : Faithful r) {s₀ : SessionState} {h₀ : List Call} where
  after_handling-Follows :
      (s : Session) (o : Option Return) (h : List Call)
      → is_active s.state ≡ true
      → HandledFollows r s₀ h₀ s.state (o, h)
      → Follows r s₀ h₀ (after_handling r s o h)
  unfolding after_handling
  after_handling-Follows s (some result) h on fine = fine
  after_handling-Follows s none h on l =
      after_saving r faithful s.state s (checkpoint r s "form_section" h) (λ e. stopped e) _
        (checkpoint-Saves r faithful s "form_section" h on l) (λ e. ground arith)
        λ t same l'. (t.state, l', λ e. refl)

  after_detection-Follows :
      (s : Session) (d : Result PageState) (h : List Call)
      → is_active s.state ≡ true
      → Lived r s₀ h₀ s.state h
      → Follows r s₀ h₀ (after_detection r s d h)
  unfolding after_detection
  after_detection-Follows s (err e) h on l =
      fail-Follows r faithful s _ h (live_of_active s.state on) l
  after_detection-Follows s (ok state) h on l =
      let (o, h') = handle_non_normal_state r s state h in
      after_handling-Follows s o h' on
        (handle_non_normal_state-Follows r faithful s state h (live_of_active s.state on) l)

  after_fill-Follows :
      (s : Session) (o : Option Error) (h : List Call)
      → is_active s.state ≡ true
      → Lived r s₀ h₀ s.state h
      → Follows r s₀ h₀ (after_fill r s o h)
  unfolding after_fill
  after_fill-Follows s (some e) h on l = fail-Follows r faithful s _ h (live_of_active s.state on) l
  after_fill-Follows s none h on l = after_detection-Follows s _ _ on (Lived.other _ refl l)

  pub fill_and_checkpoint-Follows :
      (s : Session) (values : List FieldValue) (h : List Call)
      → is_active s.state ≡ true
      → Lived r s₀ h₀ s.state h
      → Follows r s₀ h₀ (fill_and_checkpoint r s values h)
  unfolding fill_and_checkpoint
  fill_and_checkpoint-Follows s values h on l = after_fill-Follows s _ _ on (Lived.other _ refl l)

  after_arrival-Follows :
      (s : Session) (values : List FieldValue) (o : Option Return) (h : List Call)
      → is_active s.state ≡ true
      → HandledFollows r s₀ h₀ s.state (o, h)
      → Follows r s₀ h₀ (after_arrival r s values o h)
  unfolding after_arrival
  after_arrival-Follows s values (some result) h on fine = fine
  after_arrival-Follows s values none h on l = fill_and_checkpoint-Follows s values h on l

  after_navigation-Follows :
      (s : Session) (url : String) (values : List FieldValue) (a : Result PageState) (h : List Call)
      → is_active s.state ≡ true
      → Lived r s₀ h₀ s.state h
      → Follows r s₀ h₀ (after_navigation r s url values a h)
  unfolding after_navigation
  after_navigation-Follows s url values (err e) h on l =
      fail-Follows r faithful s _ h (live_of_active s.state on) l
  after_navigation-Follows s url values (ok state) h on l =
      let there = record s { current_url = url } in
      let (o, h') = handle_non_normal_state r there state h in
      after_arrival-Follows there values o h' on
        (handle_non_normal_state-Follows r faithful there state h (live_of_active s.state on) l)

  pub navigate_and_fill-Follows :
      (s : Session) (url : String) (values : List FieldValue) (h : List Call)
      → is_active s.state ≡ true
      → Lived r s₀ h₀ s.state h
      → Follows r s₀ h₀ (navigate_and_fill r s url values h)
  unfolding navigate_and_fill
  navigate_and_fill-Follows s url values h on l =
      let h' = Types.read_clock ∷ h in
      let l' = Lived.other Types.read_clock refl l in
      if_cases {A = M Call Return} (λ m. Follows r s₀ h₀ (m h')) (is_expired s (r.now h)) _ _
        (λ late. expire-Follows r faithful s h' (live_of_active s.state on) l')
        (λ open_yet. after_navigation-Follows s url values _ _ on (Lived.other _ refl l'))
