-- ===== src/Browser/Drivers/Detection.antt =====
-- What the page detection can report, and so what a submission through it can end in.
use careerpilot.Base.{
  ◌≤◌, ◌<◌, String, ◌≡◌, ◌≢◌, ◌↔◌, ◌⊎◌, inl, inr, Bool, true, false, List, ◌∷◌, arith, any,
  contains_text, to_lower, byte_length, trim_space, ok, Result-cases,
}
use careerpilot.Browser.Types
use careerpilot.Browser.Types.{
  PageState, normal, captcha, login_wall, Session, SessionState, Outcome, Call, Runner,
}
use careerpilot.Browser.Runner.{SubmitInput, submit}
use careerpilot.Browser.Runner.Submitted.{submitted_needs_signal}
use careerpilot.Browser.Drivers
use careerpilot.Browser.Drivers.{
  Playwright, page_state, detect_state, playwright_driver, captcha_signals, login_signals,
}

-- A page is taken for a CAPTCHA exactly when its lower-cased content holds one of the four signals;
-- of the other pages, a login wall is one of under 2000 bytes with a login signal; all else is a
-- normal page.
pub page_state_exact :
    (content : String)
    → let shows : List String → Bool =
        λ signals. any (λ signal. contains_text (to_lower content) signal) signals in
      let small = byte_length (trim_space content) in
      ((page_state content ≡ captcha) ↔ (shows captcha_signals ≡ true))
      × ((page_state content ≡ login_wall)
          ↔ ((shows captcha_signals ≡ false) × (small < 2000) × (shows login_signals ≡ true)))
      × ((page_state content ≡ normal)
          ↔ ((shows captcha_signals ≡ false) × ((2000 ≤ small) ⊎ (shows login_signals ≡ false))))
unfolding page_state
page_state_exact content = ground arith

page_state-submitted : (content : String) → page_state content ≢ Types.submitted
unfolding page_state
page_state-submitted content = ground arith

driver-submitted :
    (p : Playwright) (h : List Call) (selector : String)
    → Drivers.submit p h selector ≢ ok Types.submitted
unfolding Drivers.submit detect_state
driver-submitted p h selector = elim (Result-cases (p.content (Types.click_submit selector ∷ h))) [
  | inl (c, eq) ↦ ground (arith, page_state-submitted c)
  | inr (e, eq) ↦ ground arith
]

-- With the Playwright driver no submission ends in SUBMITTED, whatever the page, the stores and
-- the input: the driver never reports the page state that the runner takes for a submission.
pub playwright_never_submits :
    (r : Runner) (p : Playwright) (i : SubmitInput) (h : List Call)
    → (submit (record r { driver = playwright_driver p }) i h).0.0.outcome ≢ Outcome.submitted
unfolding playwright_driver
playwright_never_submits r p i h done =
    let with_page = record r { driver = playwright_driver p } in
    driver-submitted p _ i.submit_selector
      (submitted_needs_signal with_page i h done).confirmed_by_page
