-- ===== src/Base/Number/RoundTrip.antt =====
-- That `strconv.Atoi` reads what `strconv.Itoa` writes.
use Prim.Native.Nat.{ℕ, zero, suc, ◌+◌, ◌*◌, ◌-◌, ◌/◌, ◌%◌, ◌≤◌, ◌<◌}
use Prim.Native.Char.{Char, code}
use Prim.Native.String.{String, ◌++◌ as ◌<>◌}
use text.Mathlib.TextLemmas.{append_assoc, append-nil, nil-append, cons-append}
use mathlib.Core.Path.{◌≡◌, refl, ap, ◌∙◌}
use mathlib.Core.Bool.{true, false}
use native.Mathlib.Omega.{arith}
use careerpilot.Base.Tests.{ltb, nat_eq, if_cases}
use careerpilot.Base.Int.{ℤ, pos, negsuc}
use careerpilot.Base.Effect.{ok}
use careerpilot.Base.Text.{digit, digits, show_ℕ, show_ℤ}
use careerpilot.Base.Number.{read, is_digit, read_from, read_digits, atoi}

read_from-cons :
    (c : Char) (d n : ℕ) (t : String)
    → code c ≡ b'0' + d
    → d < 10
    → n * 10 + d ≤ 0xffffffffffffffff
    → read_from n (String.◌∷◌ c t) ≡ read_from (n * 10 + d) t
unfolding read_from
read_from-cons c d n t is_code small fits =
    let same : code c - b'0' ≡ d = omega arith in
    let test : is_digit c ≡ true = ground arith in
    let room : ltb 0xffffffffffffffff (n * 10 + d) ≡ false = ground arith in
    rw (same, test, room) refl

one_char : (c : Char) (t : String) → String.◌∷◌ c "" <> t ≡ String.◌∷◌ c t
one_char c t = cons-append c "" t ∙ ap (String.◌∷◌ c) (nil-append t)

-- One more digit.
read_from-digit :
    (d n : ℕ) (t : String)
    → d < 10
    → n * 10 + d ≤ 0xffffffffffffffff
    → read_from n (digit d <> t) ≡ read_from (n * 10 + d) t
read_from-digit zero n t small fits =
    ap (read_from n) (one_char "0" t) ∙ read_from-cons "0" 0 n t refl small fits
read_from-digit (suc zero) n t small fits =
    ap (read_from n) (one_char "1" t) ∙ read_from-cons "1" 1 n t refl small fits
read_from-digit (suc (suc zero)) n t small fits =
    ap (read_from n) (one_char "2" t) ∙ read_from-cons "2" 2 n t refl small fits
read_from-digit (suc (suc (suc zero))) n t small fits =
    ap (read_from n) (one_char "3" t) ∙ read_from-cons "3" 3 n t refl small fits
read_from-digit (suc (suc (suc (suc zero)))) n t small fits =
    ap (read_from n) (one_char "4" t) ∙ read_from-cons "4" 4 n t refl small fits
read_from-digit (suc (suc (suc (suc (suc zero))))) n t small fits =
    ap (read_from n) (one_char "5" t) ∙ read_from-cons "5" 5 n t refl small fits
read_from-digit (suc (suc (suc (suc (suc (suc zero)))))) n t small fits =
    ap (read_from n) (one_char "6" t) ∙ read_from-cons "6" 6 n t refl small fits
read_from-digit (suc (suc (suc (suc (suc (suc (suc zero))))))) n t small fits =
    ap (read_from n) (one_char "7" t) ∙ read_from-cons "7" 7 n t refl small fits
read_from-digit (suc (suc (suc (suc (suc (suc (suc (suc zero)))))))) n t small fits =
    ap (read_from n) (one_char "8" t) ∙ read_from-cons "8" 8 n t refl small fits
read_from-digit (suc (suc (suc (suc (suc (suc (suc (suc (suc zero))))))))) n t small fits =
    ap (read_from n) (one_char "9" t) ∙ read_from-cons "9" 9 n t refl small fits
read_from-digit (suc (suc (suc (suc (suc (suc (suc (suc (suc (suc d)))))))))) n t small fits =
    absurd (omega arith)

-- What a text of digits starts with: no sign, and not its end.
Starts : String → Type 0
Starts s = (c : Char) × (t : String) × (s ≡ String.◌∷◌ c t) × (b'0' ≤ code c)

digit-Starts : (d : ℕ) → Starts (digit d)
unfolding Starts
digit-Starts zero = ("0", "", refl, omega arith)
digit-Starts (suc zero) = ("1", "", refl, omega arith)
digit-Starts (suc (suc zero)) = ("2", "", refl, omega arith)
digit-Starts (suc (suc (suc zero))) = ("3", "", refl, omega arith)
digit-Starts (suc (suc (suc (suc zero)))) = ("4", "", refl, omega arith)
digit-Starts (suc (suc (suc (suc (suc zero))))) = ("5", "", refl, omega arith)
digit-Starts (suc (suc (suc (suc (suc (suc zero)))))) = ("6", "", refl, omega arith)
digit-Starts (suc (suc (suc (suc (suc (suc (suc zero))))))) = ("7", "", refl, omega arith)
digit-Starts (suc (suc (suc (suc (suc (suc (suc (suc zero)))))))) = ("8", "", refl, omega arith)
digit-Starts (suc (suc (suc (suc (suc (suc (suc (suc (suc d))))))))) = ("9", "", refl, omega arith)

digits-Starts : (fuel n : ℕ) → n < fuel → Starts (digits fuel n)
unfolding digits Starts
digits-Starts zero n enough = absurd (omega arith)
digits-Starts (suc fuel) n enough =
    if_cases Starts (ltb n 10) (digit n) (digits fuel (n / 10) <> digit (n % 10))
      (λ small. digit-Starts n)
      λ large.
        let (c, t, same, big) = digits-Starts fuel (n / 10) (ground arith) in
        (c, t <> digit (n % 10), ap (λ s. s <> digit (n % 10)) same ∙ cons-append c t _, big)

read_from-digits :
    (fuel n : ℕ) (t : String)
    → n < fuel
    → n ≤ 0xffffffffffffffff
    → read_from 0 (digits fuel n <> t) ≡ read_from n t
unfolding digits
read_from-digits zero n t enough fits = absurd (omega arith)
read_from-digits (suc fuel) n t enough fits =
    if_cases (λ s. read_from 0 (s <> t) ≡ read_from n t) (ltb n 10) (digit n)
      (digits fuel (n / 10) <> digit (n % 10))
      (λ small.
        read_from-digit n 0 t (ground arith) (omega arith)
        ∙ ap {A = ℕ} (λ m. read_from m t) (omega arith))
      λ large.
        let tenth : n / 10 < fuel = ground arith in
        let whole : n / 10 * 10 + n % 10 ≡ n = omega arith in
        rw (append_assoc (digits fuel (n / 10)) (digit (n % 10)) t) (
          read_from-digits fuel (n / 10) (digit (n % 10) <> t) tenth (omega arith)
          ∙ read_from-digit (n % 10) (n / 10) t (omega arith) (omega arith)
          ∙ ap (λ m. read_from m t) whole)

read_digits-digits :
    (fuel n : ℕ) → n < fuel → n ≤ 0xffffffffffffffff → read_digits (digits fuel n) ≡ read n
unfolding read_digits Starts read_from
read_digits-digits fuel n enough fits =
    let (c, t, same, big) = digits-Starts fuel n enough in
    let reads = read_from-digits fuel n "" enough fits in
    rw same (rw (append-nil (digits fuel n), same) at reads)

-- The integers of 64 bits.
abbrev pub InRange : ℤ → Type 0
InRange (pos n) = n ≤ 0x7fffffffffffffff
InRange (negsuc n) = n ≤ 0x7fffffffffffffff

-- A text of digits has no sign.
atoi-digits : (fuel n : ℕ) → n < fuel → n ≤ 0x7fffffffffffffff → atoi (digits fuel n) ≡ ok (pos n)
unfolding atoi Starts
atoi-digits fuel n enough fits =
    let (c, t, same, big) = digits-Starts fuel n enough in
    let reads = read_digits-digits fuel n enough (omega arith) in
    let unsigned : atoi (String.◌∷◌ c t) ≡ ok (pos n) =
      let reads' : read_digits (String.◌∷◌ c t) ≡ read n = rw same at reads in ground arith in
    rw same unsigned

atoi-negative :
    (s : String) (n : ℕ)
    → read_digits s ≡ read (suc n)
    → n ≤ 0x7fffffffffffffff
    → atoi ("-" <> s) ≡ ok (negsuc n)
unfolding atoi
atoi-negative s n reads fits = rw (one_char "-" s) (ground arith)

-- `strconv.Atoi` reads the decimal text of every 64-bit integer back as that integer.
pub atoi-show_ℤ : (v : ℤ) → InRange v → atoi (show_ℤ v) ≡ ok v
unfolding show_ℕ show_ℤ
atoi-show_ℤ (pos n) fits = atoi-digits (suc n) n (omega arith) fits
atoi-show_ℤ (negsuc n) fits =
    atoi-negative (show_ℕ (suc n)) n
      (read_digits-digits (suc (suc n)) (suc n) (omega arith) (omega arith)) fits
