-- ===== src/Base/Number.antt =====
-- `strconv.Atoi`.
pub mod RoundTrip
use Prim.Native.Nat.{ℕ, suc, ◌+◌, ◌*◌, ◌-◌}
use Prim.Native.Char.{Char, code}
use Prim.Native.String.{String, ◌++◌ as ◌<>◌}
use mathlib.Core.Bool.{Bool, ◌&&◌}
use careerpilot.Base.Tests.{ltb, leb, nat_eq, ◌==◌, if◌then◌else◌}
use careerpilot.Base.Int.{ℤ, pos, negsuc, neg_ℕ}
use careerpilot.Base.Effect.{Error, message, Result, ok, err}

-- What a text of digits is read as.
pub data Reading : Type 0 where
  read : ℕ → Reading
  invalid_syntax out_of_range : Reading

abbrev pub is_digit : Char → Bool
is_digit c = leb b'0' (code c) && leb (code c) b'9'

-- The loop of `strconv.ParseUint` at base 10, behind the value of the digits read so far.
unfoldable pub read_from : ℕ → String → Reading
read_from n String.[] = read n
read_from n (String.◌∷◌ c s) =
    let m = n * 10 + (code c - b'0') in
    let rest = read_from m s in
    if is_digit c then (if ltb 0xffffffffffffffff m then out_of_range else rest) else invalid_syntax

unfoldable pub read_digits : String → Reading
unfolding read_from
read_digits String.[] = invalid_syntax
read_digits (String.◌∷◌ c s) = read_from 0 (String.◌∷◌ c s)

-- `&NumError{"Atoi", s, err}`, for a text that `strconv.Quote` leaves as it is.
abbrev pub number_error : String → String → Error
number_error s what = message ("strconv.Atoi: parsing \"" <> s <> "\": " <> what)

abbrev pub non_negative : String → Reading → Result ℤ
non_negative s (read n) =
    if ltb 0x7fffffffffffffff n then err (number_error s "value out of range") else ok (pos n)
non_negative s invalid_syntax = err (number_error s "invalid syntax")
non_negative s out_of_range = err (number_error s "value out of range")

abbrev pub negative : String → Reading → Result ℤ
negative s (read n) =
    if ltb 0x8000000000000000 n then err (number_error s "value out of range") else ok (neg_ℕ n)
negative s invalid_syntax = err (number_error s "invalid syntax")
negative s out_of_range = err (number_error s "value out of range")

unfoldable pub atoi : String → Result ℤ
unfolding read_digits
atoi String.[] = err (number_error "" "invalid syntax")
atoi (String.◌∷◌ c s) =
    let whole = String.◌∷◌ c s in
    if code c == b'-'
    then negative whole (read_digits s)
    else if code c == b'+'
    then non_negative whole (read_digits s)
    else non_negative whole (read_digits whole)
