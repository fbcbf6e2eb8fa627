-- ===== src/Browser/Runner/Deadline.antt =====
-- When a session that `Start` makes is over, with the nanoseconds of its limit in 64 bits.
use careerpilot.Base.{
  int_eq, ◌+ℤ◌, ltb, ◌<◌, ◌≤◌, ℕ, ◌+◌, ◌-◌, ◌*◌, ◌≤◌, ◌<◌, String, ◌≡◌, ◌↔◌, ◌⊎◌, inl, inr, true,
  arith, ltb, Bool-cases, pos, negsuc, int_eq, ◌+ℤ◌, minutes,
}
use careerpilot.Browser.Types.{is_expired, Runner}
use careerpilot.Browser.Runner.{StartInput, new_session}

abbrev nanoseconds : ℕ → ℕ
nanoseconds m = m * 60_000_000_000

minutes_fit : (m : ℕ) → m ≤ 153_722_867 → minutes (pos m) ≡ pos (nanoseconds m)
unfolding minutes
minutes_fit m small = ground arith

minutes_wrapped :
    (m : ℕ)
    → 153_722_867 < m
    → m ≤ 307_445_734
    → minutes (pos m) ≡ negsuc (18_446_744_073_709_551_615 - nanoseconds m)
unfolding minutes
minutes_wrapped m large bounded = ground arith

-- With a clock behind the year 292 and a limit of at most 307,445,734 minutes, a session that has
-- started is expired exactly when its minutes are over, or the limit is above 153,722,867 minutes,
-- which do not fit in 64 bits as nanoseconds.
pub new_session-deadline :
    (r : Runner) (i : StartInput) (id : String) (started now m : ℕ)
    → r.limits.max_session_minutes ≡ pos m
    → m ≤ 307_445_734
    → 9_223_372_036_854_775_808 ≤ started
    → started ≤ now
    → (is_expired (new_session r i id (pos started)) (pos now) ≡ true)
      ↔ ((started + m * 60_000_000_000 < now) ⊎ (153_722_867 < m))
unfolding is_expired int_eq ◌+ℤ◌
new_session-deadline r i id started now m limit bounded late later =
    elim (Bool-cases (ltb 153_722_867 m)) [
      | inl large ↦
          let wrapped = minutes_wrapped m (ground arith) bounded in
          rw (limit, wrapped) (ground arith)
      | inr small ↦ let fit = minutes_fit m (ground arith) in rw (limit, fit) (ground arith)
    ]
