-- ===== src/Browser/Runner/Bounds/Tests.antt =====
-- Two starts on one day, over a session store that counts the sessions it was given.
use careerpilot.Base.{
  minutes, ◌+ℤ◌, List, contains, string_eq, nat_eq, length, show_ℕ, if◌then◌else◌, ◌+◌, ◌≤◌, String,
  ◌≡◌, refl, [], ◌∷◌, arith, pos, int_eq, ok, start_of_day,
}
use careerpilot.Browser.Types
use careerpilot.Browser.Types.{
  Call, is_expired, normal, captcha, Session, SessionState, Outcome, Runner,
}
use careerpilot.Browser.Steps.{
  save_session, handle_non_normal_state, checkpoint, store_screenshot, after_record,
}
use careerpilot.Browser.Steps.Quiet.{launches}
use careerpilot.Browser.Runner.{
  start, open_session, after_launch, after_navigation, after_arrival, fill_and_checkpoint,
  after_fill, after_detection, after_handling, navigate_and_fill,
}
use careerpilot.Browser.Runner.Bounds.Daily.{Day, opened, failed, CountsSessions, daily_limit_holds}
use careerpilot.Browser.Samples.{runner, start_input}

-- The ids of the sessions that were saved, each once.
saved_ids : List Call → List String
saved_ids [] = []
saved_ids (Types.save_session s ∷ h) =
    let rest = saved_ids h in if contains rest s.id then rest else s.id ∷ rest
saved_ids (_ ∷ h) = saved_ids h

-- A session store that counts the sessions it was given, under ids that are drawn anew.
abbrev counting : Runner
counting = record (runner normal) {
  count_started_since = λ h since. ok (pos (length (saved_ids h)));
  new_id = λ h. show_ℕ (launches h);
}

abbrev no_start : Day counting []
no_start = Day.morning

abbrev one_start : Day counting (start counting start_input []).1
one_start = Day.started start_input no_start

abbrev two_starts : Day counting (start counting start_input (start counting start_input []).1).1
two_starts = Day.started start_input one_start

one_saved : length (saved_ids (Types.read_clock ∷ (start counting start_input []).1)) ≡ 1
unfolding saved_ids opened start open_session after_launch save_session navigate_and_fill
    after_navigation after_arrival handle_non_normal_state fill_and_checkpoint after_fill
    after_detection after_handling checkpoint store_screenshot is_expired int_eq string_eq nat_eq
    ◌+ℤ◌ minutes after_record show_ℕ
one_saved = refl

one_open : opened one_start ≡ 1
unfolding saved_ids opened start open_session after_launch save_session navigate_and_fill
    after_navigation after_arrival handle_non_normal_state fill_and_checkpoint after_fill
    after_detection after_handling checkpoint store_screenshot is_expired int_eq string_eq nat_eq
    ◌+ℤ◌ minutes after_record show_ℕ
one_open = refl

none_open : opened no_start ≡ 0
unfolding opened
none_open = refl

two_starts-CountsSessions : CountsSessions (start_of_day (pos 1000)) two_starts
unfolding CountsSessions
two_starts-CountsSessions = (
  (λ n counted. ground (arith, one_open, one_saved)),
  ((λ n counted. ground (arith, none_open)), tt),
)

daily_limit_holds_example :
    (opened two_starts ≤ 2)
    × (launches (start counting start_input (start counting start_input []).1).1
        ≤ 2 + failed two_starts)
daily_limit_holds_example =
    daily_limit_holds counting (start_of_day (pos 1000)) (λ h. refl) 2 refl two_starts
      two_starts-CountsSessions

both_open : opened two_starts ≡ 2
unfolding saved_ids opened start open_session after_launch save_session navigate_and_fill
    after_navigation after_arrival handle_non_normal_state fill_and_checkpoint after_fill
    after_detection after_handling checkpoint store_screenshot is_expired int_eq string_eq nat_eq
    ◌+ℤ◌ minutes after_record show_ℕ
both_open = refl
