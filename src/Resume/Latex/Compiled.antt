-- ===== src/Resume/Latex/Compiled.antt =====
-- What a successful compilation rests on.
use careerpilot.Base.{
  String, ◌<>◌, ◌≡◌, refl, ap, ◌∙◌, inl, inr, Option, none, some, List, ◌∷◌, arith, Option-cases,
  Error, ok, Result-cases,
}
use careerpilot.Base.Lines.{split_lines}
use careerpilot.Resume.Pipeline.{CompileResult}
use careerpilot.Resume.Latex
use careerpilot.Resume.Latex.{
  Call, Machine, LatexmkCompiler, binary, latexmk_args, pages_of, count_pdf_pages, read_back,
  after_latexmk, in_dir, compile,
}

module _ (m : Machine) where
  -- The PDF that was read and the page count that pdfinfo printed, after some calls.
  pub record IsRead (dir : String) (h : List Call) (r : CompileResult) : Type 0 where
    pub read : m.read_file h (dir <> "/resume.pdf") ≡ ok r.pdf
    pub printed : String
    pub asked :
        m.run_pdfinfo (Latex.read_file (dir <> "/resume.pdf") ∷ h) (dir <> "/resume.pdf")
        ≡ ok printed
    pub counted : pages_of (split_lines printed) ≡ ok r.page_count

  -- A directory made, the source written to it, latexmk run on it without an error, and its PDF read
  -- and counted.
  pub record IsCompiled (c : LatexmkCompiler) (tex : String) (h : List Call) (r : CompileResult)
      : Type 0 where
    pub dir : String
    pub made : m.make_temp_dir h "careerpilot-resume-*" ≡ ok dir
    pub written :
        m.write_file (Latex.make_temp_dir "careerpilot-resume-*" ∷ h) (dir <> "/resume.tex") tex
        ≡ none
    pub ran :
        (m.run_latexmk
          (Latex.write_file (dir <> "/resume.tex") tex
            ∷ Latex.make_temp_dir "careerpilot-resume-*"
            ∷ h)
          (binary c)
          (latexmk_args dir)).1
        ≡ none
    pub result :
        IsRead dir
          (Latex.run_latexmk (binary c) (latexmk_args dir)
            ∷ Latex.write_file (dir <> "/resume.tex") tex
            ∷ Latex.make_temp_dir "careerpilot-resume-*"
            ∷ h)
          r

  read_back-IsRead :
      (dir : String) (h : List Call) (r : CompileResult)
      → (read_back m dir h).0 ≡ ok r
      → IsRead dir h r
  unfolding read_back count_pdf_pages
  read_back-IsRead dir h r done =
      let path = dir <> "/resume.pdf" in
      elim (Result-cases (m.read_file h path)) [
        | inr (e, unread) ↦ absurd (ground arith)
        | inl (bytes, is_read) ↦
            elim (Result-cases (m.run_pdfinfo (Latex.read_file path ∷ h) path)) [
              | inr (e, unasked) ↦ absurd (ground arith)
              | inl (text, asked) ↦ elim (Result-cases (pages_of (split_lines text))) [
                | inr (e, uncounted) ↦ absurd (ground arith)
                | inl (n, counted) ↦
                    let same : record { pdf = bytes; page_count = n } ≡ r = ground arith in
                    record {
                      read = is_read ∙ ap {A = CompileResult} (λ q. ok q.pdf) same;
                      printed = text;
                      asked = asked;
                      counted = counted ∙ ap {A = CompileResult} (λ q. ok q.page_count) same;
                    }
              ]
            ]
      ]

  after_latexmk-IsRead :
      (dir : String) (ran : String × Option Error) (h : List Call) (r : CompileResult)
      → (after_latexmk m dir ran h).0 ≡ ok r
      → (ran.1 ≡ none) × IsRead dir h r
  unfolding after_latexmk
  after_latexmk-IsRead dir (output, some e) h r done = absurd (ground arith)
  after_latexmk-IsRead dir (output, none) h r done = (refl, read_back-IsRead dir h r done)

  -- A compilation returns a result only when it made a directory, wrote the source to it, ran latexmk
  -- on it without an error, read the PDF, and found the page count in what pdfinfo printed.
  pub compile-IsCompiled :
      (c : LatexmkCompiler) (tex : String) (h : List Call) (r : CompileResult)
      → (compile m c tex h).0 ≡ ok r
      → IsCompiled c tex h r
  unfolding compile in_dir
  compile-IsCompiled c tex h r done =
      let h₁ = Latex.make_temp_dir "careerpilot-resume-*" ∷ h in
      elim (Result-cases (m.make_temp_dir h "careerpilot-resume-*")) [
        | inr (e, unmade) ↦ absurd (ground arith)
        | inl (dir, made) ↦
            let path = dir <> "/resume.tex" in
            elim (Option-cases (m.write_file h₁ path tex)) [
              | inr (e, unwritten) ↦ absurd (ground arith)
              | inl written ↦
                  let h₂ = Latex.write_file path tex ∷ h₁ in
                  let args = latexmk_args dir in
                  let log = m.run_latexmk h₂ (binary c) args in
                  let h₃ = Latex.run_latexmk (binary c) args ∷ h₂ in
                  let (ran, result) =
                    after_latexmk-IsRead dir log h₃ r (rw (made, written) at done) in
                  record { dir = dir; made = made; written = written; ran = ran; result = result }
            ]
      ]
