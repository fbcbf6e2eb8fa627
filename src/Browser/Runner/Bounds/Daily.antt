-- ===== src/Browser/Runner/Bounds/Daily.antt =====
-- That the daily limit of browser sessions holds over any sequence of operations.
use careerpilot.Base.{
  ℕ, suc, ◌+◌, ◌≤◌, String, ◌≡◌, inl, inr, Bool, true, false, Option, none, some, List, [], ◌∷◌,
  arith, if◌then◌else◌, Bool-cases, Option-cases, ℤ, pos, ◌≤ℤ◌, leb_ℤ, Error, on_ok_cases, if_cases,
  wrap, ok, Result-cases, M, Time, start_of_day,
}
use careerpilot.Browser.Types
use careerpilot.Browser.Types.{FieldValue, Call, Runner, Return}
use careerpilot.Browser.Steps.{stopped}
use careerpilot.Browser.Steps.Quiet.{launches}
use careerpilot.Browser.Runner.{StartInput, SubmitInput, start, resume, submit}
use careerpilot.Browser.Runner.Bounds.{
  open_session-AddsAtMost, resume-AddsAtMost, submit-AddsAtMost,
}

-- The calls of a day: any starts, resumptions and submissions, one after the other.
pub data Day (r : Runner) : List Call → Type 0 where
  morning : Day r []
  started : {h : List Call} (i : StartInput) → Day r h → Day r (start r i h).1
  resumed :
      {h : List Call} (raw : String) (values : List FieldValue)
      → Day r h
      → Day r (resume r raw values h).1
  submitted : {h : List Call} (j : SubmitInput) → Day r h → Day r (submit r j h).1

abbrev is_nil : Option Error → Bool
is_nil none = true
is_nil (some e) = false

-- The starts of a day that returned a session and no error: every saving of such a start succeeded.
unfoldable pub opened : {r : Runner} {h : List Call} → Day r h → ℕ
opened morning = 0
opened {r} (started {h} i day) =
    let before = opened day in if is_nil (start r i h).0.1 then suc before else before
opened (resumed raw values day) = opened day
opened (submitted j day) = opened day

-- The starts of a day that ended with an error.
unfoldable pub failed : {r : Runner} {h : List Call} → Day r h → ℕ
failed morning = 0
failed {r} (started {h} i day) =
    let before = failed day in if is_nil (start r i h).0.1 then before else suc before
failed (resumed raw values day) = failed day
failed (submitted j day) = failed day

-- Whenever a start of the day asks the session store for the sessions started since the start of the
-- day, the store counts at least the sessions that starts of the day have returned so far.
unfoldable pub CountsSessions : {r : Runner} {h : List Call} → Time → Day r h → Type 0
CountsSessions today morning = Unit
CountsSessions {r} today (started {h} i day) =
    ((n : ℤ) → r.count_started_since (Types.read_clock ∷ h) today ≡ ok n → pos (opened day) ≤ℤ n)
    × CountsSessions today day
CountsSessions today (resumed raw values day) = CountsSessions today day
CountsSessions today (submitted j day) = CountsSessions today day

module _ (r : Runner) (today : Time) (same_day : (h : List Call) → start_of_day (r.now h) ≡ today)
    (limit : ℕ) (limited : r.limits.browser_sessions_per_day ≡ pos limit) where
  -- A start returns no error only if the store counted fewer sessions than the limit.
  start_below_limit :
      (i : StartInput) (h : List Call)
      → (start r i h).0.1 ≡ none
      → (n : ℤ) × (r.count_started_since (Types.read_clock ∷ h) (start_of_day (r.now h)) ≡ ok n)
        × (leb_ℤ r.limits.browser_sessions_per_day n ≡ false)
  unfolding start
  start_below_limit i h fine =
      elim (Result-cases (r.count_started_since (Types.read_clock ∷ h) (start_of_day (r.now h)))) [
        | inr (e, uncounted) ↦ absurd (ground arith)
        | inl (n, counted) ↦ elim (Bool-cases (leb_ℤ r.limits.browser_sessions_per_day n)) [
          | inl full ↦ absurd (ground arith)
          | inr room ↦ (n, counted, room)
        ]
      ]

  -- A start launches the browser at most once.
  start-launches : (i : StartInput) (h : List Call) → launches (start r i h).1 ≤ suc (launches h)
  unfolding start
  start-launches i h =
      let since = start_of_day (r.now h) in
      let asked = Types.read_clock ∷ h in
      let h' = Types.count_started_since since ∷ asked in
      on_ok_cases {B = Return} (λ m. launches m.1 ≤ suc (launches h))
        (r.count_started_since asked since) (λ e. stopped (wrap "browser: check session limit" e)) _
        h' (λ e eq. omega arith)
        λ n eq.
          if_cases {A = M Call Return} (λ m. launches (m h').1 ≤ suc (launches h))
            (leb_ℤ r.limits.browser_sessions_per_day n) _ _ (λ full. omega arith)
            λ room. omega (arith, (open_session-AddsAtMost r i h').0)

  started-opened :
      (i : StartInput) {h : List Call} (day : Day r h)
      → ((n : ℤ)
          → r.count_started_since (Types.read_clock ∷ h) today ≡ ok n
          → pos (opened day) ≤ℤ n)
      → opened day ≤ limit
      → (opened (started i day) ≤ limit)
        × (opened (started i day) + failed (started i day) ≡ suc (opened day + failed day))
  unfolding opened failed
  started-opened i {h} day counts few = elim (Option-cases (start r i h).0.1) [
    | inr (e, stopped_early) ↦ (ground arith, ground arith)
    | inl fine ↦
        let (n, counted, room) = start_below_limit i h fine in
        let least = counts n (cc (same_day h, counted)) in
        let room' : leb_ℤ (pos limit) n ≡ false = cc (limited, room) in (ground arith, ground arith)
  ]

  -- Every launch belongs to a start of the day.
  day-counts :
      {h : List Call} (day : Day r h)
      → CountsSessions today day
      → (opened day ≤ limit) × (launches h ≤ opened day + failed day)
  unfolding opened failed CountsSessions
  day-counts morning counts = (omega arith, omega arith)
  day-counts (started {h} i day) (here, counts) =
      let (few, all) = day-counts day counts in
      let (few', more) = started-opened i day here few in (few', omega (arith, start-launches i h))
  day-counts (resumed {h} raw values day) counts =
      let (few, all) = day-counts day counts in
      (few, omega (arith, resume-AddsAtMost r raw values h))
  day-counts (submitted {h} j day) counts =
      let (few, all) = day-counts day counts in (few, omega (arith, submit-AddsAtMost r j h))

  -- With a clock that stays within one day, and a session store that counts, at every start,
  -- at least the sessions that starts of that day have returned so far, any sequence of starts, resumptions and submissions
  -- returns at most as many sessions from starts without an error as the daily limit allows, and
  -- launches the browser at most as often as that plus the starts that ended with an error.
  pub daily_limit_holds :
      {h : List Call} (day : Day r h)
      → CountsSessions today day
      → (opened day ≤ limit) × (launches h ≤ limit + failed day)
  daily_limit_holds day counts =
      let (few, rest) = day-counts day counts in (few, omega (arith, few, rest))
