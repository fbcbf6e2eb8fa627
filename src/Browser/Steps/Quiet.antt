-- ===== src/Browser/Steps/Quiet.antt =====
-- The shared steps never launch the browser, navigate, fill or click: what they call is counted.
use careerpilot.Base.{ℕ, ◌+◌, String, ◌≡◌, List, [], ◌∷◌, arith}
use careerpilot.Browser.Types
use careerpilot.Browser.Types.{
  PageState, normal, captcha, login_wall, unknown, navigate_error, unlisted, Session, Call, Runner,
}
use careerpilot.Browser.Steps.{
  save_session, fail, expire, after_record, store_screenshot, paused, hand_over, pause_for_human,
  handle_non_normal_state, checkpoint,
}

abbrev navigation : Call → ℕ
navigation (Types.navigate url) = 1
navigation _ = 0

abbrev filling : Call → ℕ
filling (Types.fill values) = 1
filling _ = 0

abbrev clicking : Call → ℕ
clicking (Types.click_submit selector) = 1
clicking _ = 0

abbrev launching : Call → ℕ
launching Types.launch = 1
launching _ = 0

-- How often a record of calls launches the browser, navigates, fills and clicks submit.
abbrev pub launches : List Call → ℕ
launches [] = 0
launches (c ∷ h) = launching c + launches h

abbrev pub navigations : List Call → ℕ
navigations [] = 0
navigations (c ∷ h) = navigation c + navigations h

abbrev pub fills : List Call → ℕ
fills [] = 0
fills (c ∷ h) = filling c + fills h

abbrev pub clicks : List Call → ℕ
clicks [] = 0
clicks (c ∷ h) = clicking c + clicks h

-- Nothing was launched, navigated, filled or clicked between the two records.
abbrev pub Quiet : List Call → List Call → Type 0
Quiet h h' =
    (navigations h' ≡ navigations h)
    × (fills h' ≡ fills h)
    × (clicks h' ≡ clicks h)
    × (launches h' ≡ launches h)

module _ (r : Runner) where
  pub save_session-Quiet : (s : Session) (h : List Call) → Quiet h (save_session r s h).1
  unfolding save_session
  save_session-Quiet s h = ground arith

  pub fail-Quiet : (s : Session) (reason : String) (h : List Call) → Quiet h (fail r s reason h).1
  unfolding fail
  fail-Quiet s reason h = ground arith

  pub expire-Quiet : (s : Session) (h : List Call) → Quiet h (expire r s h).1
  unfolding expire
  expire-Quiet s h = ground arith

  hand_over-Quiet :
      (s : Session) (reason : String) (h : List Call) → Quiet h (hand_over r s reason h).1
  unfolding hand_over
  hand_over-Quiet s reason h = ground arith

  pub pause_for_human-Quiet :
      (s : Session) (reason : String) (h : List Call) → Quiet h (pause_for_human r s reason h).1
  unfolding pause_for_human save_session store_screenshot hand_over paused
  pause_for_human-Quiet s reason h = ground arith

  pub handle_non_normal_state-Quiet :
      (s : Session) (state : PageState) (h : List Call)
      → Quiet h (handle_non_normal_state r s state h).1
  unfolding handle_non_normal_state
  handle_non_normal_state-Quiet s normal h = ground arith
  handle_non_normal_state-Quiet s _ h = grind (arith, pause_for_human-Quiet, fail-Quiet)

  pub checkpoint-Quiet :
      (s : Session) (step : String) (h : List Call) → Quiet h (checkpoint r s step h).1
  unfolding checkpoint store_screenshot after_record save_session
  checkpoint-Quiet s step h = ground arith

-- The steps of the runner, for counts that they leave alone.
pub ruleset quiet_steps = (
  arith, save_session-Quiet, fail-Quiet, expire-Quiet, pause_for_human-Quiet,
  handle_non_normal_state-Quiet, checkpoint-Quiet,
)
