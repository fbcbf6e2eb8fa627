-- ===== src/Browser/Runner/Bounds/Filling.antt =====
-- How often the navigation and the filling of a form act on the page.
use careerpilot.Base.{
  ℕ, ◌+◌, ◌≤◌, String, Option, none, some, List, ◌∷◌, arith, Error, Result, ok, err,
}
use careerpilot.Browser.Types
use careerpilot.Browser.Types.{
  FieldValue, PageState, normal, Session, Return, Call, Runner, is_expired,
}
use careerpilot.Browser.Steps.{handle_non_normal_state}
use careerpilot.Browser.Steps.Quiet.{
  quiet_steps, launches, navigations, fills, clicks, expire-Quiet, handle_non_normal_state-Quiet,
}
use careerpilot.Browser.Runner.{
  after_handling, after_detection, after_fill, after_arrival, after_navigation, fill_and_checkpoint,
  navigate_and_fill,
}

-- At most so many launches, navigations, fills and clicks were added.
abbrev pub AddsAtMost : ℕ → ℕ → ℕ → ℕ → List Call → List Call → Type 0
AddsAtMost l n f c h h' =
    (launches h' ≤ launches h + l)
    × (navigations h' ≤ navigations h + n)
    × (fills h' ≤ fills h + f)
    × (clicks h' ≤ clicks h + c)

module _ (r : Runner) where
  after_handling-AddsAtMost :
      (s : Session) (o : Option Return) (h : List Call)
      → AddsAtMost 0 0 0 0 h (after_handling r s o h).1
  unfolding after_handling
  after_handling-AddsAtMost s (some result) h = omega arith
  after_handling-AddsAtMost s none h = grind quiet_steps

  after_detection-AddsAtMost :
      (s : Session) (d : Result PageState) (h : List Call)
      → AddsAtMost 0 0 0 0 h (after_detection r s d h).1
  unfolding after_detection
  after_detection-AddsAtMost s (err e) h = omega quiet_steps
  after_detection-AddsAtMost s (ok state) h =
      let (o, h') = handle_non_normal_state r s state h in
      omega (quiet_steps, after_handling-AddsAtMost s o h')

  after_fill-AddsAtMost :
      (s : Session) (o : Option Error) (h : List Call) → AddsAtMost 0 0 0 0 h (after_fill r s o h).1
  unfolding after_fill
  after_fill-AddsAtMost s (some e) h = omega quiet_steps
  after_fill-AddsAtMost s none h =
      omega (arith, after_detection-AddsAtMost s (r.driver.detect_state h) (Types.detect_state ∷ h))

  pub fill_and_checkpoint-AddsAtMost :
      (s : Session) (values : List FieldValue) (h : List Call)
      → AddsAtMost 0 0 1 0 h (fill_and_checkpoint r s values h).1
  unfolding fill_and_checkpoint
  fill_and_checkpoint-AddsAtMost s values h =
      omega (arith, after_fill-AddsAtMost s (r.driver.fill h values) (Types.fill values ∷ h))

  after_arrival-AddsAtMost :
      (s : Session) (values : List FieldValue) (o : Option Return) (h : List Call)
      → AddsAtMost 0 0 1 0 h (after_arrival r s values o h).1
  unfolding after_arrival
  after_arrival-AddsAtMost s values (some result) h = omega arith
  after_arrival-AddsAtMost s values none h = fill_and_checkpoint-AddsAtMost s values h

  after_navigation-AddsAtMost :
      (s : Session) (url : String) (values : List FieldValue) (a : Result PageState) (h : List Call)
      → AddsAtMost 0 0 1 0 h (after_navigation r s url values a h).1
  unfolding after_navigation
  after_navigation-AddsAtMost s url values (err e) h = omega quiet_steps
  after_navigation-AddsAtMost s url values (ok state) h =
      let there = record s { current_url = url } in
      let (o, h') = handle_non_normal_state r there state h in
      omega (
        arith,
        handle_non_normal_state-Quiet r there state h,
        after_arrival-AddsAtMost there values o h',
      )

  pub navigate_and_fill-AddsAtMost :
      (s : Session) (url : String) (values : List FieldValue) (h : List Call)
      → AddsAtMost 0 1 1 0 h (navigate_and_fill r s url values h).1
  unfolding navigate_and_fill
  navigate_and_fill-AddsAtMost s url values h =
      let h' = Types.read_clock ∷ h in
      ground (
        arith,
        expire-Quiet r s h',
        after_navigation-AddsAtMost s url values (r.driver.navigate h' url)
            (Types.navigate url ∷ h'),
      )
