-- ===== src/Browser/Drivers/Fake.antt =====
-- internal/browser/fake_driver.go: a scripted driver, whose methods take and return its state.
use careerpilot.Base.{
  ℕ, zero, suc, ◌+◌, String, Bool, true, Option, none, some, List, [], ◌∷◌, ◌++◌, Error, Result, ok,
  err,
}
use careerpilot.Browser.Types.{FieldValue, PageState, unknown, Screenshot}

pub record FakeDriver : Type 0 where
  pub launch_err : Option Error
  pub navigate_states : List PageState
  pub navigate_err : Option Error
  pub navigate_calls : ℕ
  pub detect_states : List PageState
  pub detect_calls : ℕ
  pub fill_err : Option Error
  pub submit_state : PageState
  pub submit_err : Option Error
  pub screenshots : List Screenshot
  pub screenshot_calls : ℕ
  pub current_url_value : String
  pub closed : Bool
  pub filled_fields : List (List FieldValue)
  pub navigated_urls : List String

-- The element at an index, or the last one from there on.
at_or_last : {A : Type 0} → A → List A → ℕ → A
at_or_last last [] n = last
at_or_last last (x ∷ xs) zero = x
at_or_last last (x ∷ xs) (suc n) = at_or_last x xs n

pub navigate : FakeDriver → String → Result PageState × FakeDriver
navigate f url =
    let f' = record f {
      navigated_urls = f.navigated_urls ++ (url ∷ []);
      current_url_value = url;
    } in
    elim f.navigate_err [
      | some e ↦ (err e, f')
      | none ↦ elim f.navigate_states [
        | [] ↦ (ok unknown, f')
        | s ∷ ss ↦ (
          ok (at_or_last s (s ∷ ss) f.navigate_calls),
          record f' { navigate_calls = f.navigate_calls + 1 },
        )
      ]
    ]

pub fill : FakeDriver → List FieldValue → Option Error × FakeDriver
fill f values = (f.fill_err, record f { filled_fields = f.filled_fields ++ (values ∷ []) })

pub detect_state : FakeDriver → Result PageState × FakeDriver
detect_state f = elim f.detect_states [
  | [] ↦ (ok unknown, f)
  | s ∷ ss ↦
      (ok (at_or_last s (s ∷ ss) f.detect_calls), record f { detect_calls = f.detect_calls + 1 })
]

pub submit : FakeDriver → Result PageState
submit f = elim f.submit_err [ some e ↦ err e | none ↦ ok f.submit_state ]

pub launch : FakeDriver → Option Error
launch f = f.launch_err

-- The screenshot at an index, if there are as many.
screenshot_at : List Screenshot → ℕ → Option Screenshot
screenshot_at [] n = none
screenshot_at (s ∷ ss) zero = some s
screenshot_at (s ∷ ss) (suc n) = screenshot_at ss n

-- The bytes of "fake-screenshot".
abbrev fake_screenshot : Screenshot
fake_screenshot = record {
  image = 102 ∷ 97 ∷ 107 ∷ 101 ∷ 45 ∷ 115 ∷ 99 ∷ 114 ∷ 101 ∷ 101 ∷ 110 ∷ 115 ∷ 104 ∷ 111 ∷ 116 ∷ [];
  mime_type = "image/png";
}

pub screenshot : FakeDriver → Screenshot × FakeDriver
screenshot f =
    let f' = record f { screenshot_calls = f.screenshot_calls + 1 } in
    elim (screenshot_at f.screenshots f.screenshot_calls) [
      | some s ↦ (s, f')
      | none ↦ (fake_screenshot, f')
    ]

pub current_url : FakeDriver → String
current_url f = f.current_url_value

pub close : FakeDriver → FakeDriver
close f = record f { closed = true }
