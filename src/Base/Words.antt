-- ===== src/Base/Words.antt =====
-- That the words of joined words are those words.
use Prim.Native.Char.{Char}
use Prim.Native.String.{String, ◌++◌ as ◌<>◌}
use text.Mathlib.TextLemmas.{nil-append, cons-append, append-nil, append_assoc, cons≢nil}
use mathlib.Core.Path.{◌≡◌, refl, sym, ap, ◌∙◌}
use mathlib.Core.Logic.{◌≢◌, inl, inr}
use mathlib.Core.Bool.{false}
use mathlib.Core.List.{List, [], ◌∷◌}
use careerpilot.Base.Tests.{nat_eq, Bool-cases}
use careerpilot.Base.Lists.{All}
use careerpilot.Base.Text.{join, is_space, fields_from, fields}
use careerpilot.Base.Lines.Laws.{Each, Each-append}

-- Texts as lists of characters.
pub ruleset text_laws = (nil-append, cons-append, append-nil, append_assoc)

abbrev Spaceless : String → Type 0
Spaceless = Each (λ c. is_space c ≡ false)

-- A word is not empty and has no blank in it.
abbrev pub IsWord : String → Type 0
IsWord w = (w ≢ "") × Spaceless w

fields_from-cons :
    (read : String) (c : Char) (s : String)
    → is_space c ≡ false
    → fields_from read (String.◌∷◌ c s) ≡ fields_from (read <> String.◌∷◌ c "") s
unfolding fields_from
fields_from-cons read c s plain = rw (plain, fields_from) refl

fields_from-append :
    (read w s : String) → Spaceless w → fields_from read (w <> s) ≡ fields_from (read <> w) s
fields_from-append read String.[] s plain = simp text_laws
fields_from-append read (String.◌∷◌ c w) s (here, plain) =
    let one : String.◌∷◌ c "" <> w ≡ String.◌∷◌ c w = simp text_laws in
    ap (fields_from read) (cons-append c w s)
    ∙ fields_from-cons read c (w <> s) here
    ∙ fields_from-append (read <> String.◌∷◌ c "") w s plain
    ∙ ap (λ x. fields_from x s) (append_assoc read (String.◌∷◌ c "") w ∙ ap (◌<>◌ read) one)

fields_from-end : (w : String) → w ≢ "" → fields_from w "" ≡ w ∷ []
unfolding fields_from
fields_from-end String.[] some_text = absurd (some_text refl)
fields_from-end (String.◌∷◌ c w) some_text = refl

fields_from-space : (w s : String) → w ≢ "" → fields_from w (" " <> s) ≡ w ∷ fields_from "" s
unfolding fields_from is_space nat_eq
fields_from-space String.[] s some_text = absurd (some_text refl)
fields_from-space (String.◌∷◌ c w) s some_text =
    ap (fields_from (String.◌∷◌ c w)) (cons-append " " "" s ∙ ap (String.◌∷◌ " ") (nil-append s))

-- Words that are joined by blanks are the words that the text has.
pub fields-join : (words : List String) → All IsWord words → fields (join words " ") ≡ words
unfolding fields join
fields-join [] all_words = refl
fields-join (w ∷ []) ((some_text, plain), all_words) =
    ap (fields_from "") (sym (append-nil w))
    ∙ fields_from-append "" w "" plain
    ∙ ap (λ x. fields_from x "") (nil-append w)
    ∙ fields_from-end w some_text
fields-join (w ∷ v ∷ words) ((some_text, plain), all_words) =
    fields_from-append "" w (" " <> join (v ∷ words) " ") plain
    ∙ ap (λ x. fields_from x (" " <> join (v ∷ words) " ")) (nil-append w)
    ∙ fields_from-space w (join (v ∷ words) " ") some_text
    ∙ ap (◌∷◌ w) (fields-join (v ∷ words) all_words)

fields_from-IsWord : (read s : String) → Spaceless read → All IsWord (fields_from read s)
unfolding fields_from
fields_from-IsWord String.[] String.[] plain = tt
fields_from-IsWord (String.◌∷◌ c read) String.[] plain = (((λ p. cons≢nil p), plain), tt)
fields_from-IsWord String.[] (String.◌∷◌ c s) plain = elim (Bool-cases (is_space c)) [
  | inl blank ↦ rw (blank, fields_from) (fields_from-IsWord "" s tt)
  | inr letter ↦
      rw (fields_from-cons "" c s letter)
        (fields_from-IsWord _ s (Each-append _ "" (String.◌∷◌ c "") tt (letter, tt)))
]
fields_from-IsWord (String.◌∷◌ d read) (String.◌∷◌ c s) plain = elim (Bool-cases (is_space c)) [
  | inl blank ↦ rw (blank, fields_from) (((λ p. cons≢nil p), plain), fields_from-IsWord "" s tt)
  | inr letter ↦
      let read' = String.◌∷◌ d read in
      rw (fields_from-cons read' c s letter) (
        fields_from-IsWord (read' <> String.◌∷◌ c "") s
          (Each-append (λ x. is_space x ≡ false) read' (String.◌∷◌ c "") plain (letter, tt)))
]

pub fields-IsWord : (s : String) → All IsWord (fields s)
unfolding fields
fields-IsWord s = fields_from-IsWord "" s tt
