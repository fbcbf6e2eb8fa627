-- ===== src/Base/Text.antt =====
-- Text that the code formats: `strconv.Itoa`, `fmt` verbs on lists, `strings.Join`.
use Prim.Native.Nat.{◌*◌, ℕ, zero, suc, ◌+◌, ◌-◌, ◌/◌, ◌%◌}
use Prim.Native.Char.{Char, code}
use Prim.Native.String.{String, ◌++◌ as ◌<>◌, slice}
use mathlib.Core.Bool.{Bool, true, false, ◌&&◌, ◌||◌}
use mathlib.Core.Option.{none, some}
use text.Mathlib.Text.{find?}
use mathlib.Core.List.{List, [], ◌∷◌}
use careerpilot.Base.Tests.{ltb, leb, nat_eq, string_eq, ◌==◌, if◌then◌else◌}
use careerpilot.Base.Int.{ℤ, pos, negsuc}

abbrev pub digit : ℕ → String
digit zero = "0"
digit (suc zero) = "1"
digit (suc (suc zero)) = "2"
digit (suc (suc (suc zero))) = "3"
digit (suc (suc (suc (suc zero)))) = "4"
digit (suc (suc (suc (suc (suc zero))))) = "5"
digit (suc (suc (suc (suc (suc (suc zero)))))) = "6"
digit (suc (suc (suc (suc (suc (suc (suc zero))))))) = "7"
digit (suc (suc (suc (suc (suc (suc (suc (suc zero)))))))) = "8"
digit _ = "9"

-- The decimal digits of a number below 10 ^ fuel.
unfoldable pub digits : ℕ → ℕ → String
digits zero n = ""
digits (suc fuel) n =
    let more = digits fuel (n / 10) in if ltb n 10 then digit n else more <> digit (n % 10)

-- `n + 1` rounds are enough for the digits of `n`.
unfoldable pub show_ℕ : ℕ → String
unfolding digits
show_ℕ n = digits (suc n) n

-- `strconv.Itoa`, and the verb `%d`.
unfoldable pub show_ℤ : ℤ → String
unfolding show_ℕ
show_ℤ (pos n) = show_ℕ n
show_ℤ (negsuc n) = "-" <> show_ℕ (suc n)

-- `strings.Join`.
unfoldable pub join : List String → String → String
join [] sep = ""
join (s ∷ []) sep = s
join (s ∷ t ∷ rest) sep = s <> sep <> join (t ∷ rest) sep

-- The verb `%v` on a `[]string`.
unfoldable pub show_list : List String → String
unfolding join
show_list xs = "[" <> join xs " " <> "]"

-- `strings.Contains`.
unfoldable pub contains_text : String → String → Bool
contains_text s t = elim (find? s t) [ some _ ↦ true | none ↦ false ]

-- `slice` counts bytes, of which a letter between U+0080 and U+00FF has two.
lower_char : Char → String
lower_char c =
    if leb b'A' (code c) && leb (code c) b'Z'
    then slice "abcdefghijklmnopqrstuvwxyz" (code c - b'A') (code c - b'@')
    else if leb 0xc0 (code c) && leb (code c) 0xd6
    then slice "àáâãäåæçèéêëìíîïðñòóôõö" (2 * (code c - 0xc0)) (2 * (code c - 0xbf))
    else if leb 0xd8 (code c) && leb (code c) 0xde
    then slice "øùúûüýþ" (2 * (code c - 0xd8)) (2 * (code c - 0xd7))
    else if code c == 0x130
    then "i"
    else if code c == 0x212a
    then "k"
    else String.◌∷◌ c ""

-- `strings.ToLower`, for the letters up to U+00FF and those whose lower case is in ASCII; the other
-- ones are kept.
unfoldable pub to_lower : String → String
unfolding lower_char
to_lower String.[] = ""
to_lower (String.◌∷◌ c s) = lower_char c <> to_lower s

-- `unicode.IsSpace`.
unfoldable pub is_space : Char → Bool
is_space c =
    let n = code c in
    leb 9 n && leb n 13
    || n == 32
    || n == 0x85
    || n == 0xa0
    || n == 0x1680
    || leb 0x2000 n && leb n 0x200a
    || n == 0x2028
    || n == 0x2029
    || n == 0x202f
    || n == 0x205f
    || n == 0x3000

abbrev flush : String → List String → List String
flush String.[] words = words
flush (String.◌∷◌ c w) words = String.◌∷◌ c w ∷ words

-- The words of a text, behind a word that has been read in part.
unfoldable pub fields_from : String → String → List String
fields_from word String.[] = flush word []
fields_from word (String.◌∷◌ c s) = elim (is_space c) [
  | true ↦ flush word (fields_from "" s)
  | false ↦ fields_from (word <> String.◌∷◌ c "") s
]

-- `strings.Fields`.
unfoldable pub fields : String → List String
unfolding fields_from is_space
fields s = fields_from "" s

-- The bytes of a character, and Go's `len` of a string.
abbrev width : Char → ℕ
width c =
    if ltb (code c) 0x80
    then 1
    else if ltb (code c) 0x800
    then 2
    else if ltb (code c) 0x10000
    then 3
    else 4

unfoldable pub byte_length : String → ℕ
byte_length String.[] = 0
byte_length (String.◌∷◌ c s) = width c + byte_length s

unfoldable pub trim_start : String → String
trim_start String.[] = ""
trim_start (String.◌∷◌ c s) = elim (is_space c) [ true ↦ trim_start s | false ↦ String.◌∷◌ c s ]

unfoldable pub trim_end : String → String
trim_end String.[] = ""
trim_end (String.◌∷◌ c s) =
    let rest = trim_end s in if is_space c && (rest == "") then "" else String.◌∷◌ c rest

-- `strings.TrimSpace`.
unfoldable pub trim_space : String → String
unfolding trim_start trim_end is_space
trim_space s = trim_end (trim_start s)
