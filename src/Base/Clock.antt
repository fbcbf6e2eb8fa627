-- ===== src/Base/Clock.antt =====
-- `time.Time` and `time.Duration` in nanoseconds, a time counted from Go's zero time, which is a
-- midnight. The location is UTC.
use Prim.Native.Nat.{◌+◌, ◌*◌, ◌/◌}
use mathlib.Core.Bool.{Bool}
use careerpilot.Base.Tests.{◌==◌}
use careerpilot.Base.Int.{ℤ, pos, negsuc, ltb_ℤ, int_eq, ◌+ℤ◌, ◌*ℤ◌, wrap_int64}

abbrev pub Time : Type 0
Time = ℤ

abbrev pub Duration : Type 0
Duration = ℤ

abbrev pub minute : Duration
minute = pos 60_000_000_000

-- `time.Duration(n) * time.Minute`.
unfoldable pub minutes : ℤ → Duration
unfolding ◌*ℤ◌ wrap_int64
minutes n = wrap_int64 (n *ℤ minute)

-- `t.IsZero()`.
abbrev pub is_zero : Time → Bool
is_zero t = t == pos 0

-- `t.After(u)`.
abbrev pub after : Time → Time → Bool
after t u = ltb_ℤ u t

-- `t.Add(d)`.
abbrev pub add : Time → Duration → Time
add t d = t +ℤ d

-- `time.Date(t.Year(), t.Month(), t.Day(), 0, 0, 0, 0, t.Location())`.
unfoldable pub start_of_day : Time → Time
start_of_day (pos n) = pos (n / 86_400_000_000_000 * 86_400_000_000_000)
start_of_day (negsuc n) = negsuc (n / 86_400_000_000_000 * 86_400_000_000_000 + 86_399_999_999_999)
