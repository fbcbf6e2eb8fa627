-- ===== src/Base/Order.antt =====
-- Go's `<` on text, and what a sort needs of an order.
use mathlib.Core.Path.{◌≡◌, refl, ap, ◌∙◌}
use mathlib.Core.Logic.{◌≢◌, inl, inr}
use mathlib.Core.Bool.{Bool, true, false}
use Prim.Native.Char.{code}
use Prim.Native.String.{String}
use text.Mathlib.TextEquality.{Char-path}
use native.Mathlib.Omega.{arith}
use careerpilot.Base.Tests.{ltb, Bool-cases, String-discrete, string_eq, if◌then◌else◌, ◌==◌}
use careerpilot.Base.Int.{ℤ, pos, negsuc, ltb_ℤ}

-- The bytes of UTF-8 are ordered as the code points are.
unfoldable pub text_lt : String → String → Bool
text_lt s String.[] = false
text_lt String.[] (String.◌∷◌ d t) = true
text_lt (String.◌∷◌ c s) (String.◌∷◌ d t) =
    let rest = text_lt s t in
    if ltb (code c) (code d) then true else if ltb (code d) (code c) then false else rest

-- A strict total order.
pub record IsOrder {ℓ} {K : Type ℓ} (lt : K → K → Bool) : Type ℓ where
  pub asymmetric : {a b : K} → lt a b ≡ true → lt b a ≡ false
  pub transitive : {a b c : K} → lt a b ≡ true → lt b c ≡ true → lt a c ≡ true
  pub total : {a b : K} → a ≢ b → lt a b ≡ false → lt b a ≡ true

text_lt-asymmetric : (s t : String) → text_lt s t ≡ true → text_lt t s ≡ false
unfolding text_lt
text_lt-asymmetric s String.[] below = absurd (ground arith)
text_lt-asymmetric String.[] (String.◌∷◌ d t) below = refl
text_lt-asymmetric (String.◌∷◌ c s) (String.◌∷◌ d t) below =
    let rest = text_lt-asymmetric s t in ground arith

text_lt-transitive : (s t u : String) → text_lt s t ≡ true → text_lt t u ≡ true → text_lt s u ≡ true
unfolding text_lt
text_lt-transitive s t String.[] below above = absurd (ground arith)
text_lt-transitive s String.[] (String.◌∷◌ e u) below above = absurd (ground arith)
text_lt-transitive String.[] (String.◌∷◌ d t) (String.◌∷◌ e u) below above = refl
text_lt-transitive (String.◌∷◌ c s) (String.◌∷◌ d t) (String.◌∷◌ e u) below above =
    let rest = text_lt-transitive s t u in ground arith

text_lt-total : (s t : String) → text_lt s t ≡ false → text_lt t s ≡ false → s ≡ t
unfolding text_lt
text_lt-total String.[] String.[] below above = refl
text_lt-total (String.◌∷◌ c s) String.[] below above = absurd (ground arith)
text_lt-total String.[] (String.◌∷◌ d t) below above = absurd (ground arith)
text_lt-total (String.◌∷◌ c s) (String.◌∷◌ d t) below above =
    let rest = text_lt-total s t in
    let codes : code c ≡ code d = ground arith in
    let below' : text_lt s t ≡ false = ground arith in
    let above' : text_lt t s ≡ false = ground arith in
    ap (λ x. String.◌∷◌ x s) (Char-path c d codes) ∙ ap (String.◌∷◌ d) (rest below' above')

total : (s t : String) → s ≢ t → text_lt s t ≡ false → text_lt t s ≡ true
total s t differ not_below = elim (Bool-cases (text_lt t s)) [
  | inl above ↦ above
  | inr not_above ↦ absurd (differ (text_lt-total s t not_below not_above))
]

pub text_lt-IsOrder : IsOrder text_lt
text_lt-IsOrder = record {
  asymmetric = λ {a} {b} below. text_lt-asymmetric a b below;
  transitive = λ {a} {b} {c} below above. text_lt-transitive a b c below above;
  total = λ {a} {b} differ not_below. total a b differ not_below;
}

-- By a name first, and by a number between equal names.
unfoldable pub name_lt : String × ℤ → String × ℤ → Bool
name_lt (s, m) (t, n) = if s == t then ltb_ℤ m n else text_lt s t

name_lt-asymmetric : (a b : String × ℤ) → name_lt a b ≡ true → name_lt b a ≡ false
unfolding name_lt
name_lt-asymmetric (s, m) (t, n) below = ground (arith, text_lt-asymmetric s t)

name_lt-transitive :
    (a b c : String × ℤ) → name_lt a b ≡ true → name_lt b c ≡ true → name_lt a c ≡ true
unfolding name_lt
name_lt-transitive (s, m) (t, n) (u, k) below above =
    ground (arith, text_lt-transitive s t u, text_lt-asymmetric s t)

ltb_ℤ-total : (m n : ℤ) → ltb_ℤ m n ≡ false → ltb_ℤ n m ≡ false → m ≡ n
ltb_ℤ-total (pos m) (pos n) below above = ground arith
ltb_ℤ-total (pos m) (negsuc n) below above = absurd (ground arith)
ltb_ℤ-total (negsuc m) (pos n) below above = absurd (ground arith)
ltb_ℤ-total (negsuc m) (negsuc n) below above = ground arith

name_lt-total : (a b : String × ℤ) → a ≢ b → name_lt a b ≡ false → name_lt b a ≡ true
unfolding name_lt
name_lt-total (s, m) (t, n) differ not_below = elim (String-discrete s t) [
  | no apart ↦ let names = total s t apart in ground arith
  | yes same ↦ elim (Bool-cases (ltb_ℤ n m)) [
    | inl above ↦ ground arith
    | inr not_above ↦
        let numbers : m ≡ n = ltb_ℤ-total m n (ground arith) not_above in
        absurd (differ (ap (λ x. (x, m)) same ∙ ap (λ x. (t, x)) numbers))
  ]
]

pub name_lt-IsOrder : IsOrder name_lt
name_lt-IsOrder = record {
  asymmetric = λ {a} {b} below. name_lt-asymmetric a b below;
  transitive = λ {a} {b} {c} below above. name_lt-transitive a b c below above;
  total = λ {a} {b} differ not_below. name_lt-total a b differ not_below;
}
