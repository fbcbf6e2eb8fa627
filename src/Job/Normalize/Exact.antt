-- ===== src/Job/Normalize/Exact.antt =====
-- When two postings have the same fingerprint, and that normalizing twice is normalizing once.
use Prim.Native.Char.{code}
use text.Mathlib.TextLemmas.{
  nil-append, cons-append, append_assoc, head-eq_of_cons-eq, tail-eq_of_cons-eq,
}
use careerpilot.Base.{
  String, ◌<>◌, ◌≡◌, refl, sym, ap, ◌∙◌, ◌≢◌, ◌≤◌, ◌↔◌, nat_eq, join, to_lower, fields,
}
use careerpilot.Base.Lines.Laws.{Each}
use careerpilot.Base.Words.{text_laws, fields-join, fields-IsWord}
use careerpilot.Job.Types.{RawJob}
use careerpilot.Job.Normalize.{normalize_text, fingerprint_key, fingerprint, normalize}

-- The words of a text, with a blank between two, in lower case.
unfoldable pub folded : String → String
folded s = to_lower (normalize_text s)

-- A text without the separator of the fingerprint's parts.
abbrev pub Unseparated : String → Type 0
Unseparated = Each (λ c. code c ≢ b'|')

-- A posting whose company, title and location are written in the characters up to U+00FF.
abbrev pub IsLatin : RawJob → Type 0
IsLatin raw =
    Each (λ c. code c ≤ 0xff) raw.company
    × Each (λ c. code c ≤ 0xff) raw.title
    × Each (λ c. code c ≤ 0xff) raw.location

to_lower-append : (s t : String) → to_lower (s <> t) ≡ to_lower s <> to_lower t
unfolding to_lower
to_lower-append String.[] t = simp text_laws
to_lower-append (String.◌∷◌ c s) t =
    ap to_lower (cons-append c s t)
    ∙ ap (◌<>◌ _) (to_lower-append s t)
    ∙ sym (append_assoc _ (to_lower s) (to_lower t))

append_cancel : (s x y : String) → s <> x ≡ s <> y → x ≡ y
append_cancel String.[] x y same = sym (nil-append x) ∙ same ∙ nil-append y
append_cancel (String.◌∷◌ c s) x y same =
    append_cancel s x y (tail-eq_of_cons-eq (sym (cons-append c s x) ∙ same ∙ cons-append c s y))

bar-cons : (s : String) → "|" <> s ≡ String.◌∷◌ "|" s
bar-cons s = rw (cons-append, nil-append)

to_lower-bar : (s : String) → to_lower ("|" <> s) ≡ "|" <> to_lower s
unfolding to_lower nat_eq
to_lower-bar s = ap to_lower (bar-cons s)

to_lower-part :
    (s rest : String) → to_lower (s <> ("|" <> rest)) ≡ to_lower s <> ("|" <> to_lower rest)
to_lower-part s rest = to_lower-append s _ ∙ ap (◌<>◌ (to_lower s)) (to_lower-bar rest)

fingerprint_key-folded :
    (source company title location : String)
    → fingerprint_key source company title location
      ≡ to_lower source
        <> ("|" <> (to_lower company <> ("|" <> (to_lower title <> ("|" <> to_lower location)))))
unfolding fingerprint_key join
fingerprint_key-folded source company title location =
    to_lower-part source _
    ∙ ap (λ x. to_lower source <> ("|" <> x))
        (to_lower-part company _
          ∙ ap (λ x. to_lower company <> ("|" <> x)) (to_lower-part title location))

-- Unseparated parts are read back from where the separator first stands.
split_bar :
    (s t x y : String)
    → Unseparated s
    → Unseparated t
    → s <> ("|" <> x) ≡ t <> ("|" <> y)
    → (s ≡ t) × (x ≡ y)
split_bar String.[] String.[] x y plain plain' same = (
  refl,
  tail-eq_of_cons-eq (sym (bar-cons x) ∙ sym (nil-append _) ∙ same ∙ nil-append _ ∙ bar-cons y),
)
split_bar String.[] (String.◌∷◌ d t) x y plain (other, plain') same =
    let heads =
      head-eq_of_cons-eq (sym (bar-cons x) ∙ sym (nil-append _) ∙ same ∙ cons-append d t _) in
    absurd (other (ap code (sym heads)))
split_bar (String.◌∷◌ c s) String.[] x y (other, plain) plain' same =
    let heads = head-eq_of_cons-eq (sym (cons-append c s _) ∙ same ∙ nil-append _ ∙ bar-cons y) in
    absurd (other (ap code heads))
split_bar (String.◌∷◌ c s) (String.◌∷◌ d t) x y (other, plain) (other', plain') same =
    let whole = sym (cons-append c s _) ∙ same ∙ cons-append d t _ in
    let (rest, tails) = split_bar s t x y plain plain' (tail-eq_of_cons-eq whole) in
    (ap (λ u. String.◌∷◌ u s) (head-eq_of_cons-eq whole) ∙ ap (String.◌∷◌ d) rest, tails)

-- Normalizing the texts of a posting again leaves them, and its fingerprint, as they are.
normalize_text-normalize_text : (s : String) → normalize_text (normalize_text s) ≡ normalize_text s
unfolding normalize_text
normalize_text-normalize_text s =
    ap (λ words. join words " ") (fields-join (fields s) (fields-IsWord s))

abbrev parts : String → String → String → String → String
parts source company title location =
    source <> ("|" <> (company <> ("|" <> (title <> ("|" <> location)))))

parts_iff :
    (source c t l c' t' l' : String)
    → Unseparated c
    → Unseparated c'
    → Unseparated t
    → Unseparated t'
    → (parts source c t l ≡ parts source c' t' l') ↔ ((c ≡ c') × (t ≡ t') × (l ≡ l'))
parts_iff source c t l c' t' l' plain_c plain_c' plain_t plain_t' = (
  (λ same.
      let behind = append_cancel "|" _ _ (append_cancel source _ _ same) in
      let (companies, rest) = split_bar c c' _ _ plain_c plain_c' behind in
      let (titles, locations) = split_bar t t' _ _ plain_t plain_t' rest in
      (companies, titles, locations)),
  λ (companies, titles, locations). rw (companies, titles, locations) refl,
)

-- The text that is hashed for a posting.
abbrev pub hashed : String → RawJob → String
hashed source raw =
    fingerprint_key source (normalize_text raw.company) (normalize_text raw.title)
      (normalize_text raw.location)

-- Two postings of one source whose companies, titles and locations are written in the characters up
-- to U+00FF, whose hashed texts do not collide, and whose companies and titles hold no "|", have the
-- same fingerprint exactly when their companies, their titles and their locations have the same
-- words but for letter case.
pub fingerprints_exact :
    (sha256_hex : String → String) (source : String) (raw raw' : RawJob)
    → IsLatin raw
    → IsLatin raw'
    → (sha256_hex (hashed source raw) ≡ sha256_hex (hashed source raw')
        → hashed source raw ≡ hashed source raw')
    → Unseparated (folded raw.company)
    → Unseparated (folded raw'.company)
    → Unseparated (folded raw.title)
    → Unseparated (folded raw'.title)
    → ((normalize sha256_hex source raw).normalized_hash
        ≡ (normalize sha256_hex source raw').normalized_hash)
      ↔ ((folded raw.company ≡ folded raw'.company)
          × (folded raw.title ≡ folded raw'.title)
          × (folded raw.location ≡ folded raw'.location))
unfolding normalize fingerprint folded
fingerprints_exact sha source raw raw' latin latin' apart company company' title title' =
    let key =
      fingerprint_key-folded source (normalize_text raw.company) (normalize_text raw.title)
        (normalize_text raw.location) in
    let key' =
      fingerprint_key-folded source (normalize_text raw'.company) (normalize_text raw'.title)
        (normalize_text raw'.location) in
    let (apart_parts, together) =
      parts_iff (to_lower source) (folded raw.company) (folded raw.title) (folded raw.location)
        (folded raw'.company) (folded raw'.title) (folded raw'.location) company company' title
        title' in
    (
      (λ same. apart_parts (sym key ∙ apart same ∙ key')),
      λ equal. ap sha (key ∙ together equal ∙ sym key'),
    )

-- A posting whose texts have been normalized is normalized to the same texts and fingerprint.
pub normalize_again :
    (sha256_hex : String → String) (source : String) (raw : RawJob)
    → let j = normalize sha256_hex source raw in
      let again =
        normalize sha256_hex source
          (record raw { company = j.company; title = j.title; location = j.location }) in
      (again.company ≡ j.company)
      × (again.title ≡ j.title)
      × (again.location ≡ j.location)
      × (again.normalized_hash ≡ j.normalized_hash)
unfolding normalize
normalize_again sha source raw =
    let c = normalize_text-normalize_text raw.company in
    let t = normalize_text-normalize_text raw.title in
    let l = normalize_text-normalize_text raw.location in (c, t, l, rw (c, t, l) refl)
