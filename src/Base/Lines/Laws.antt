-- ===== src/Base/Lines/Laws.antt =====
-- That joined lines are split again, and that a prefix that is there is cut.
use Prim.Native.Char.{Char, code}
use Prim.Native.String.{String, ◌++◌ as ◌<>◌}
use text.Mathlib.TextLemmas.{nil-append, cons-append}
use mathlib.Core.Path.{◌≡◌, refl, ap, ◌∙◌}
use mathlib.Core.Logic.{◌≢◌}
use mathlib.Core.Option.{some}
use mathlib.Core.List.{List, [], ◌∷◌}
use native.Mathlib.Omega.{arith}
use careerpilot.Base.Tests.{nat_eq}
use careerpilot.Base.Lists.{All}
use careerpilot.Base.Text.{join}
use careerpilot.Base.Lines.{prepend, split_lines, cut_prefix}

-- What holds of every character of a text.
abbrev pub Each {ℓ} : (Char → Type ℓ) → String → Type ℓ
Each P String.[] = Unit
Each P (String.◌∷◌ c s) = P c × Each P s

-- A text of one line.
abbrev pub OneLine : String → Type 0
OneLine s = Each (λ c. code c ≢ b'\n') s

split_lines-cons :
    (c : Char) (s : String)
    → code c ≢ b'\n'
    → split_lines (String.◌∷◌ c s) ≡ prepend c (split_lines s)
unfolding split_lines
split_lines-cons c s other = ground arith

split_lines-one : (s : String) → OneLine s → split_lines s ≡ s ∷ []
unfolding split_lines
split_lines-one String.[] plain = refl
split_lines-one (String.◌∷◌ c s) (other, plain) = ground (arith, split_lines-one s plain)

split_lines-more : (s t : String) → OneLine s → split_lines (s <> ("\n" <> t)) ≡ s ∷ split_lines t
unfolding split_lines nat_eq
split_lines-more String.[] t plain =
    ap split_lines
      (nil-append ("\n" <> t) ∙ cons-append "\n" "" t ∙ ap (String.◌∷◌ "\n") (nil-append t))
split_lines-more (String.◌∷◌ c s) t (other, plain) =
    let rest = split_lines-more s t plain in
    ap split_lines (cons-append c s ("\n" <> t))
    ∙ split_lines-cons c (s <> ("\n" <> t)) other
    ∙ ap (prepend c) rest

-- Lines that are joined by newlines are the lines that the text is split into.
pub split_lines-join :
    (s : String) (lines : List String)
    → All OneLine (s ∷ lines)
    → split_lines (join (s ∷ lines) "\n") ≡ s ∷ lines
unfolding join
split_lines-join s [] (plain, _) = split_lines-one s plain
split_lines-join s (t ∷ lines) (plain, others) =
    split_lines-more s (join (t ∷ lines) "\n") plain ∙ ap (◌∷◌ s) (split_lines-join t lines others)

-- A prefix is cut off.
pub cut_prefix-append : (prefix s : String) → cut_prefix prefix (prefix <> s) ≡ some s
unfolding cut_prefix
cut_prefix-append String.[] s = ap some (nil-append s)
cut_prefix-append (String.◌∷◌ p prefix) s =
    let rest = cut_prefix-append prefix s in
    ap (cut_prefix (String.◌∷◌ p prefix)) (cons-append p prefix s) ∙ ground arith

pub Each-append {ℓ} : (P : Char → Type ℓ) (s t : String) → Each P s → Each P t → Each P (s <> t)
Each-append P String.[] t hs ht = rw (nil-append t) ht
Each-append P (String.◌∷◌ c s) t (hc, hs) ht = rw (cons-append c s t) (hc, Each-append P s t hs ht)
