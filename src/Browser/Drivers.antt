-- ===== src/Browser/Drivers.antt =====
-- internal/browser/playwright_driver.go over a page of package playwright-go, and fake_driver.go.
pub mod Detection
pub mod Fake
pub mod Resources
mod Tests
use careerpilot.Base.{
  ℕ, String, ◌<>◌, ◌&&◌, Option, none, some, List, [], ◌∷◌, if◌then◌else◌, ltb, any, contains_text,
  to_lower, byte_length, trim_space, Error, wrap, Result, ok, err,
}
use careerpilot.Browser.Types
use careerpilot.Browser.Types.{
  FieldValue, PageState, normal, captcha, login_wall, Screenshot, Call, Driver,
}

-- The calls of playwright-go, each answered from the runner's calls so far; what the driver has
-- done itself since (the page gone to, a field filled, the button clicked) is put in front of them. Those that only release
-- a browser after a failed launch return nothing and are left out.
pub record Playwright : Type 0 where
  pub run : List Call → Option Error
  pub launch_chromium : List Call → Option Error
  pub new_page : List Call → Option Error
  pub go_to : List Call → String → Option Error
  pub fill : List Call → String → String → Option Error
  pub content : List Call → Result String
  pub screenshot : List Call → Result (List ℕ)
  pub url : List Call → String
  pub click : List Call → String → Option Error

abbrev pub captcha_signals : List String
captcha_signals = "g-recaptcha" ∷ "h-captcha" ∷ "cf-turnstile" ∷ "captcha" ∷ []

abbrev pub login_signals : List String
login_signals = "sign in" ∷ "log in" ∷ "login" ∷ []

-- `DetectState` on the content of the page.
pub page_state : String → PageState
page_state content =
    let lower = to_lower content in
    if any (λ signal. contains_text lower signal) captcha_signals
    then captcha
    else if ltb (byte_length (trim_space content)) 2000
        && any (λ signal. contains_text lower signal) login_signals
    then login_wall
    else normal

-- `if err != nil { return ..., fmt.Errorf(what+": %w", err) }` where only the error is kept.
abbrev wrapped : String → Option Error → Option Error
wrapped what none = none
wrapped what (some e) = some (wrap what e)

module _ (p : Playwright) where
  pub detect_state : List Call → Result PageState
  detect_state h = elim (p.content h) [
    | err e ↦ err (wrap "browser: read page content" e)
    | ok content ↦ ok (page_state content)
  ]

  launch : List Call → Option Error
  launch h = elim (p.run h) [
    | some e ↦ some (wrap "browser: start playwright" e)
    | none ↦ elim (p.launch_chromium h) [
      | some e ↦ some (wrap "browser: launch chromium" e)
      | none ↦ wrapped "browser: new page" (p.new_page h)
    ]
  ]

  navigate : List Call → String → Result PageState
  navigate h url = elim (p.go_to h url) [
    | some e ↦ err (wrap ("browser: navigate to " <> url) e)
    | none ↦ detect_state (Types.navigate url ∷ h)
  ]

  fill : List Call → List FieldValue → Option Error
  fill h [] = none
  fill h (f ∷ fs) =
      let rest = fill (Types.fill (f ∷ []) ∷ h) fs in
      elim (p.fill h f.selector f.value) [
        | some e ↦ some (wrap ("browser: fill " <> f.selector) e)
        | none ↦ rest
      ]

  screenshot : List Call → Result Screenshot
  screenshot h = elim (p.screenshot h) [
    | err e ↦ err (wrap "browser: screenshot" e)
    | ok image ↦ ok (record { image = image; mime_type = "image/png" })
  ]

  pub submit : List Call → String → Result PageState
  submit h selector = elim (p.click h selector) [
    | some e ↦ err (wrap ("browser: click submit " <> selector) e)
    | none ↦ detect_state (Types.click_submit selector ∷ h)
  ]

  -- `PlaywrightDriver` as the runner sees it.
  pub playwright_driver : Driver
  playwright_driver = record {
    launch = launch;
    navigate = navigate;
    fill = fill;
    detect_state = detect_state;
    screenshot = screenshot;
    current_url = p.url;
    submit = submit;
  }
