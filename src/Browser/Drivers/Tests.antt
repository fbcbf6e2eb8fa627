-- ===== src/Browser/Drivers/Tests.antt =====
-- Pages seen by internal/browser/playwright_driver.go.
use careerpilot.Base.{
  ◌+◌, ◌≡◌, refl, ◌≢◌, ◌⊎◌, true, none, some, [], nat_eq, string_eq, pos, contains_text, to_lower,
  byte_length, trim_space, message, ok, minute,
}
use careerpilot.Browser.Drivers.Resources.{
  Host, new_playwright_driver, launch, close, stops, closes, launch_close_releases,
}
use careerpilot.Browser.Types.{captcha, login_wall, no_session, Outcome, Runner}
use careerpilot.Browser.Runner.{SubmitInput, submit}
use careerpilot.Browser.Drivers.{Playwright, page_state, playwright_driver}
use careerpilot.Browser.Drivers.Detection.{playwright_never_submits}

reads_captcha : page_state "<div class=\"G-ReCaptcha\">" ≡ captcha
unfolding page_state contains_text to_lower trim_space byte_length nat_eq string_eq
reads_captcha = refl

reads_login_wall : page_state " Please Log In " ≡ login_wall
unfolding page_state contains_text to_lower trim_space byte_length nat_eq string_eq
reads_login_wall = refl

abbrev page : Playwright
page = record {
  run = λ h. none;
  launch_chromium = λ h. none;
  new_page = λ h. none;
  go_to = λ h url. none;
  fill = λ h selector value. none;
  content = λ h. ok "<h1>Application received</h1>";
  screenshot = λ h. ok [];
  url = λ h. "https://jobs.example/done";
  click = λ h selector. none;
}

abbrev runner : Runner
runner = record {
  driver = playwright_driver page;
  tokens = record {
    save_token_hash = λ h hash id expires. none;
    lookup_by_hash = λ h hash now. ok none;
    revoke_by_hash = λ h hash. none;
  };
  count_started_since = λ h since. ok (pos 0);
  save_session = λ h s. ok s;
  get_session = λ h id. ok no_session;
  save_checkpoint = λ h c. none;
  save_screenshot = λ h id shot. "";
  notifier = none;
  limits = record { browser_sessions_per_day = pos 2; max_session_minutes = pos 30 };
  recovery_ttl = minute;
  random_token = λ h. ok "raw";
  sha256_hex = λ s. s;
  new_id = λ h. "id";
  now = λ h. pos 0;
}

abbrev input : SubmitInput
input = record {
  session = no_session;
  gate_result = record { passed = true; reasons = [] };
  submit_selector = "#submit";
}

playwright_never_submits_example :
    (submit (record runner { driver = playwright_driver page }) input []).0.0.outcome
    ≢ Outcome.submitted
playwright_never_submits_example = playwright_never_submits runner page input []

-- A host without a browser.
abbrev host : Host
host = record {
  run_playwright = λ h. none;
  launch_chromium = λ h headless. some (message "executable does not exist");
  new_page = λ h. none;
  close_browser = λ h. none;
  stop_playwright = λ h. none;
}

launch_close_releases_example :
    let d = new_playwright_driver true in
    let ((failure, d'), h') = launch host d [] in
    let h'' = (close host d' h').1 in
    (stops h'' ≡ 1 + 0)
    × (closes h'' ≡ 0 + 0)
    × ((failure ≡ none) ⊎ ((d' ≡ d) × (stops h' ≡ stops h'') × (closes h' ≡ closes h'')))
launch_close_releases_example = launch_close_releases host true []
