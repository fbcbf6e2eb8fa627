-- ===== src/Base/Lines/Trim.antt =====
-- That `strings.TrimSpace` removes the blanks before a number and leaves the number.
use Prim.Native.Nat.{ℕ, zero, suc, ◌/◌, ◌%◌}
use Prim.Native.String.{String, ◌++◌ as ◌<>◌}
use text.Mathlib.TextLemmas.{nil-append, cons-append}
use mathlib.Core.Path.{◌≡◌, refl, ap, ◌∙◌}
use mathlib.Core.Bool.{true, false}
use native.Mathlib.Omega.{arith}
use careerpilot.Base.Tests.{ltb, nat_eq, if_cases}
use careerpilot.Base.Int.{ℤ, pos, negsuc}
use careerpilot.Base.Text.{
  is_space, digit, digits, show_ℕ, show_ℤ, trim_start, trim_end, trim_space,
}
use careerpilot.Base.Lines.Laws.{Each, Each-append}

-- A text of blanks, and one with none.
abbrev pub Blank : String → Type 0
Blank s = Each (λ c. is_space c ≡ true) s

abbrev pub Solid : String → Type 0
Solid s = Each (λ c. is_space c ≡ false) s

trim_end-Solid : (s : String) → Solid s → trim_end s ≡ s
unfolding trim_end
trim_end-Solid String.[] solid = refl
trim_end-Solid (String.◌∷◌ c s) (here, solid) = let rest = trim_end-Solid s solid in ground arith

trim_start-Solid : (s : String) → Solid s → trim_start s ≡ s
unfolding trim_start
trim_start-Solid String.[] solid = refl
trim_start-Solid (String.◌∷◌ c s) (here, solid) = rw (here, trim_start) refl

trim_start-Blank : (b s : String) → Blank b → trim_start (b <> s) ≡ trim_start s
unfolding trim_start
trim_start-Blank String.[] s blank = ap trim_start (nil-append s)
trim_start-Blank (String.◌∷◌ c b) s (here, blank) =
    ap trim_start (cons-append c b s) ∙ rw (here, trim_start) (trim_start-Blank b s blank)

pub trim_space-Blank : (b s : String) → Blank b → Solid s → trim_space (b <> s) ≡ s
unfolding trim_space
trim_space-Blank b s blank solid =
    ap trim_end (trim_start-Blank b s blank ∙ trim_start-Solid s solid) ∙ trim_end-Solid s solid

digit-Solid : (d : ℕ) → Solid (digit d)
unfolding is_space nat_eq
digit-Solid zero = (refl, tt)
digit-Solid (suc zero) = (refl, tt)
digit-Solid (suc (suc zero)) = (refl, tt)
digit-Solid (suc (suc (suc zero))) = (refl, tt)
digit-Solid (suc (suc (suc (suc zero)))) = (refl, tt)
digit-Solid (suc (suc (suc (suc (suc zero))))) = (refl, tt)
digit-Solid (suc (suc (suc (suc (suc (suc zero)))))) = (refl, tt)
digit-Solid (suc (suc (suc (suc (suc (suc (suc zero))))))) = (refl, tt)
digit-Solid (suc (suc (suc (suc (suc (suc (suc (suc zero)))))))) = (refl, tt)
digit-Solid (suc (suc (suc (suc (suc (suc (suc (suc (suc d))))))))) = (refl, tt)

digits-Solid : (fuel n : ℕ) → Solid (digits fuel n)
unfolding digits
digits-Solid zero n = tt
digits-Solid (suc fuel) n =
    if_cases Solid (ltb n 10) (digit n) (digits fuel (n / 10) <> digit (n % 10))
      (λ small. digit-Solid n)
      λ large.
        Each-append (λ c. is_space c ≡ false) (digits fuel (n / 10)) (digit (n % 10))
          (digits-Solid fuel (n / 10)) (digit-Solid (n % 10))

-- A number in decimal has no blanks.
pub show_ℤ-Solid : (v : ℤ) → Solid (show_ℤ v)
unfolding show_ℤ show_ℕ is_space nat_eq
show_ℤ-Solid (pos n) = digits-Solid (suc n) n
show_ℤ-Solid (negsuc n) =
    Each-append (λ c. is_space c ≡ false) "-" (digits (suc (suc n)) (suc n)) (refl, tt)
      (digits-Solid (suc (suc n)) (suc n))
