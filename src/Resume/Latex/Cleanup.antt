-- ===== src/Resume/Latex/Cleanup.antt =====
-- What a compilation leaves behind.
use careerpilot.Base.{String, ◌<>◌, ◌≡◌, List, [], ◌∷◌, ◌++◌, nat_eq, string_eq, All, int_eq}
use careerpilot.Resume.Latex
use careerpilot.Resume.Latex.{Call, binary}

-- A call on the files of a compilation's directory, or of latexmk on the source there, with its
-- output there and on nothing else.
abbrev pub Within : String → Call → Type 0
Within dir (Latex.write_file path text) = path ≡ dir <> "/resume.tex"
Within dir (Latex.run_latexmk name args) =
    args
    ≡ "-interaction=nonstopmode"
      ∷ "-halt-on-error"
      ∷ "-pdf"
      ∷ ("-outdir=" <> dir)
      ∷ (dir <> "/resume.tex")
      ∷ []
Within dir (Latex.read_file path) = path ≡ dir <> "/resume.pdf"
Within dir (Latex.run_pdfinfo path) = path ≡ dir <> "/resume.pdf"
Within dir (Latex.make_temp_dir pattern) = ⊥
Within dir (Latex.remove_all path) = ⊥

-- The calls that were made since, all of them in the directory.
abbrev pub StaysWithin : String → List Call → List Call → Type 0
StaysWithin dir h h' = (steps : List Call) × (h' ≡ steps ++ h) × All (Within dir) steps
