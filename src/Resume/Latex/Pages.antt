-- ===== src/Resume/Latex/Pages.antt =====
-- That the page count is read off the output of pdfinfo.
use careerpilot.Base.{
  String, ◌<>◌, ◌≡◌, none, some, List, [], ◌∷◌, ◌++◌, arith, All, ℤ, show_ℤ, join, trim_space, ok,
}
use careerpilot.Base.Number.{atoi}
use careerpilot.Base.Number.RoundTrip.{InRange, atoi-show_ℤ}
use careerpilot.Base.Lines.{cut_prefix}
use careerpilot.Base.Lines.Laws.{OneLine, split_lines-join, cut_prefix-append}
use careerpilot.Base.Lines.Trim.{Blank, trim_space-Blank, show_ℤ-Solid}
use careerpilot.Resume.Latex.{Call, Machine, pages_of, count_pdf_pages}

-- A line that says how many pages there are.
abbrev pub pages_line : String → ℤ → String
pages_line blanks n = "Pages:" <> (blanks <> show_ℤ n)

-- Lines about something else.
abbrev pub Others : List String → Type 0
Others lines = All (λ line. cut_prefix "Pages:" line ≡ none) lines

pages_of-here :
    (line rest : String) (lines : List String) (n : ℤ)
    → cut_prefix "Pages:" line ≡ some rest
    → atoi (trim_space rest) ≡ ok n
    → pages_of (line ∷ lines) ≡ ok n
unfolding pages_of
pages_of-here line rest lines n cut reads = ground arith

pages_of-pages_line :
    (before after_it : List String) (blanks : String) (n : ℤ)
    → Others before
    → Blank blanks
    → InRange n
    → pages_of (before ++ (pages_line blanks n ∷ after_it)) ≡ ok n
unfolding pages_of
pages_of-pages_line [] after_it blanks n others blank fits =
    pages_of-here (pages_line blanks n) (blanks <> show_ℤ n) after_it n
      (cut_prefix-append "Pages:" (blanks <> show_ℤ n))
      (rw (trim_space-Blank blanks (show_ℤ n) blank (show_ℤ-Solid n)) (atoi-show_ℤ n fits))
pages_of-pages_line (line ∷ before) after_it blanks n (other, others) blank fits =
    rw (other, pages_of) (pages_of-pages_line before after_it blanks n others blank fits)

-- When pdfinfo prints lines of which the first that starts with "Pages:" goes on with blanks and a
-- 64-bit number in decimal, that number is the page count.
pub count_pdf_pages-join :
    (m : Machine) (path : String) (h : List Call) (first : String) (before after_it : List String)
    (blanks : String) (n : ℤ)
    → All OneLine (first ∷ (before ++ (pages_line blanks n ∷ after_it)))
    → Others (first ∷ before)
    → Blank blanks
    → InRange n
    → m.run_pdfinfo h path ≡ ok (join (first ∷ (before ++ (pages_line blanks n ∷ after_it))) "\n")
    → (count_pdf_pages m path h).0 ≡ ok n
unfolding count_pdf_pages
count_pdf_pages-join m path h first before after_it blanks n plain others blank fits printed =
    rw printed (
      rw (split_lines-join first (before ++ (pages_line blanks n ∷ after_it)) plain)
        (pages_of-pages_line (first ∷ before) after_it blanks n others blank fits))
