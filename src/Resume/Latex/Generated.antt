-- ===== src/Resume/Latex/Generated.antt =====
-- The life of a resume version over the LaTeX toolchain.
use careerpilot.Base.{◌≡◌, some, List, ◌∷◌, ok, Time}
use careerpilot.Resume.Version.{Version}
use careerpilot.Resume.Pipeline
use careerpilot.Resume.Pipeline.{CompileResult, GenerateInput, Toolchain}
use careerpilot.Resume.Pipeline.History.{History, decisions, Fits, history-Origin, history-Fits}
use careerpilot.Resume.Validation.{validate_page_count}
use careerpilot.Resume.Latex
use careerpilot.Resume.Latex.{TemplateEngine, Machine, LatexmkCompiler, render, compile}
use careerpilot.Resume.Latex.Compiled.{IsCompiled, compile-IsCompiled}

module _ (t : TemplateEngine) (m : Machine) (c : LatexmkCompiler)
    (asked : List Pipeline.Call → List Latex.Call) (now : List Pipeline.Call → Time) where
  -- `latex.Render` and a `LatexmkCompiler`, where `asked` are the calls that the machine has had.
  abbrev pub latex_toolchain : Toolchain
  latex_toolchain = record {
    parse_and_execute = λ name source content. render t name source content;
    compile = λ h tex. (compile m c tex (asked h)).0;
    now = now;
  }

  -- The source that the template rendered, what latexmk and pdfinfo made of it in a fresh directory,
  -- and the validation of that page count.
  pub record IsMade (v : Version) : Type 0 where
    pub input : GenerateInput
    pub before : List Pipeline.Call
    pub rendered :
        render t input.template_name input.template_source input.content ≡ ok v.source_tex
    pub compiled :
        IsCompiled m c v.source_tex
          (asked (Pipeline.read_clock ∷ before))
          (record { pdf = v.generated_pdf; page_count = v.page_count })
    pub checked : v.validation ≡ some (validate_page_count v.page_count)

  -- A version that was generated over the LaTeX toolchain, and saved, approved or rejected any
  -- number of times since, has the source that the template rendered, the PDF that latexmk made of it in a
  -- fresh directory, the page count that pdfinfo printed and the validation of that count. It has
  -- been decided upon at most once: not yet, and it is VALIDATED with one page or under REVIEW with
  -- another count; or once, and it is APPROVED, with whatever count, or REJECTED with one other than
  -- one.
  pub history-IsMade :
      (v : Version) (past : History latex_toolchain v) → IsMade v × Fits (decisions past) v
  history-IsMade v past =
      let o = history-Origin latex_toolchain v past in
      (
        record {
          input = o.input;
          before = o.before;
          rendered = o.rendered;
          compiled =
              compile-IsCompiled m c v.source_tex (asked (Pipeline.read_clock ∷ o.before)) _
                o.compiled;
          checked = o.checked;
        },
        history-Fits latex_toolchain v past,
      )
