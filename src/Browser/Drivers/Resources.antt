-- ===== src/Browser/Drivers/Resources.antt =====
-- internal/browser/playwright_driver.go: what Launch takes of the host and Close gives back.
use careerpilot.Base.{
  ℕ, ◌+◌, String, ◌<>◌, ◌≡◌, ◌⊎◌, Bool, true, false, ◌&&◌, Option, none, some, List, [], ◌∷◌, ◌++◌,
  arith, show_list, Error, message, wrap, error_text, M, ◌>>=◌, pure, call,
}

pub data Call : Type 0 where
  run_playwright : Call
  launch_chromium : Bool → Call
  new_page close_browser stop_playwright : Call

-- The calls of playwright-go that start and end a browser.
pub record Host : Type 0 where
  pub run_playwright : List Call → Option Error
  pub launch_chromium : List Call → Bool → Option Error
  pub new_page : List Call → Option Error
  pub close_browser : List Call → Option Error
  pub stop_playwright : List Call → Option Error

-- A `PlaywrightDriver`: which of its pointers are set.
pub record PlaywrightDriver : Type 0 where
  pub headless : Bool
  pub pw : Bool
  pub browser : Bool
  pub page : Bool

abbrev pub new_playwright_driver : Bool → PlaywrightDriver
new_playwright_driver headless = record {
  headless = headless;
  pw = false;
  browser = false;
  page = false;
}

module _ (host : Host) where
  -- `Launch` from the new page on.
  after_page : PlaywrightDriver → Option Error → M Call (Option Error × PlaywrightDriver)
  after_page d none = pure (none, record d { pw = true; browser = true; page = true })
  after_page d (some e) = do
    closed ← call close_browser host.close_browser
    stopped ← call stop_playwright host.stop_playwright
    pure (some (wrap "browser: new page" e), d)

  -- `Launch` from the browser on.
  after_browser : PlaywrightDriver → Option Error → M Call (Option Error × PlaywrightDriver)
  after_browser d none = do failure ← call new_page host.new_page; after_page d failure
  after_browser d (some e) = do
    stopped ← call stop_playwright host.stop_playwright
    pure (some (wrap "browser: launch chromium" e), d)

  after_run : PlaywrightDriver → Option Error → M Call (Option Error × PlaywrightDriver)
  after_run d none = do
    failure ← call (launch_chromium d.headless) (λ h. host.launch_chromium h d.headless)
    after_browser d failure
  after_run d (some e) = pure (some (wrap "browser: start playwright" e), d)

  pub launch : PlaywrightDriver → M Call (Option Error × PlaywrightDriver)
  launch d = do failure ← call run_playwright host.run_playwright; after_run d failure

  -- `if d.x != nil { if err := d.x.Close(); err != nil { errs = append(errs, err) } }`
  release : Bool → Call → (List Call → Option Error) → M Call (List String)
  release false c answer = pure []
  release true c answer = do
    failure ← call c answer
    pure (elim failure [ none ↦ [] | some e ↦ error_text e ∷ [] ])

  close_errors : List String → Option Error
  close_errors [] = none
  close_errors (e ∷ errs) = some (message ("browser: close errors: " <> show_list (e ∷ errs)))

  pub close : PlaywrightDriver → M Call (Option Error)
  close d = do
    browser_errs ← release d.browser close_browser host.close_browser
    pw_errs ← release d.pw stop_playwright host.stop_playwright
    pure (close_errors (browser_errs ++ pw_errs))

-- How often a record of calls closes a browser and stops Playwright.
abbrev closing : Call → ℕ
closing close_browser = 1
closing _ = 0

abbrev stopping : Call → ℕ
stopping stop_playwright = 1
stopping _ = 0

abbrev pub closes : List Call → ℕ
closes [] = 0
closes (c ∷ h) = closing c + closes h

abbrev pub stops : List Call → ℕ
stops [] = 0
stops (c ∷ h) = stopping c + stops h

abbrev pub one_if : Bool → ℕ
one_if true = 1
one_if false = 0

abbrev is_nil : Option Error → Bool
is_nil none = true
is_nil (some e) = false

module _ (host : Host) where
  -- Whether a launch after some calls starts Playwright and a browser.
  abbrev pub runs : List Call → Bool
  runs h = is_nil (host.run_playwright h)

  abbrev pub opens : Bool → List Call → Bool
  opens headless h = runs h && is_nil (host.launch_chromium (run_playwright ∷ h) headless)

  -- A launch of a new driver and then a close, whatever fails in either, stop Playwright exactly once
  -- if it was started and close the browser exactly once if it was launched, and otherwise never; a
  -- launch that fails has done so by itself and leaves the driver as it was.
  pub launch_close_releases :
      (headless : Bool) (h : List Call)
      → let d = new_playwright_driver headless in
        let ((failure, d'), h') = launch host d h in
        let h'' = (close host d' h').1 in
        (stops h'' ≡ one_if (runs h) + stops h)
        × (closes h'' ≡ one_if (opens headless h) + closes h)
        × ((failure ≡ none) ⊎ ((d' ≡ d) × (stops h' ≡ stops h'') × (closes h' ≡ closes h'')))
  unfolding launch after_run after_browser after_page close release
  launch_close_releases headless h = ground arith
