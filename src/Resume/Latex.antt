-- ===== src/Resume/Latex.antt =====
-- internal/resume/latex: rendering, and compiling with latexmk in a temporary directory. The
-- template engine, the file system and the two programs are the environment.
pub mod Cleanup
pub mod Pages
pub mod Compiled
pub mod Generated
pub mod Tests
use careerpilot.Base.{
  ℕ, String, ◌<>◌, not, Option, none, some, List, [], ◌∷◌, if◌then◌else◌, nat_eq, ◌==◌, string_eq,
  ℤ, int_eq, trim_space, Error, on_nil, message, wrap, joined, Result, ok, err, M, ◌>>=◌, pure,
  call, on_ok,
}
use careerpilot.Base.Number.{atoi}
use careerpilot.Base.Lines.{split_lines, cut_prefix}
use careerpilot.Resume.Pipeline.{TemplateData, CompileResult}

-- text/template with the delimiters `<<` and `>>`: a parsed template is any text.
pub record TemplateEngine : Type 0 where
  pub parse : String → String → Result String
  pub execute : String → TemplateData → Result String

pub render : TemplateEngine → String → String → TemplateData → Result String
render t name template_source content = elim (t.parse name template_source) [
  | err e ↦ err (wrap ("latex: parse template " <> name) e)
  | ok tmpl ↦ elim (t.execute tmpl content) [
    | err e ↦ err (wrap ("latex: execute template " <> name) e)
    | ok text ↦ ok text
  ]
]

pub data Call : Type 0 where
  make_temp_dir : String → Call
  write_file : String → String → Call
  run_latexmk : String → List String → Call
  read_file : String → Call
  run_pdfinfo : String → Call
  remove_all : String → Call

-- The file system and the programs; `run_latexmk` answers with its output and an error.
pub record Machine : Type 0 where
  pub make_temp_dir : List Call → String → Result String
  pub write_file : List Call → String → String → Option Error
  pub run_latexmk : List Call → String → List String → String × Option Error
  pub read_file : List Call → String → Result (List ℕ)
  pub run_pdfinfo : List Call → String → Result String

pub record LatexmkCompiler : Type 0 where
  pub binary_name : String  -- the field `Binary`

abbrev pub new_latexmk_compiler : LatexmkCompiler
new_latexmk_compiler = record { binary_name = "latexmk" }

abbrev pub binary : LatexmkCompiler → String
binary c = if not (c.binary_name == "") then c.binary_name else "latexmk"

-- The arguments of latexmk.
abbrev pub latexmk_args : String → List String
latexmk_args dir =
    "-interaction=nonstopmode"
    ∷ "-halt-on-error"
    ∷ "-pdf"
    ∷ ("-outdir=" <> dir)
    ∷ (dir <> "/resume.tex")
    ∷ []

-- The loop over the lines, for lines that `%q` quotes as they are.
pub pages_of : List String → Result ℤ
pages_of [] = err (message "pdfinfo output missing Pages line")
pages_of (line ∷ lines) = elim (cut_prefix "Pages:" line) [
  | none ↦ pages_of lines
  | some rest ↦ elim (atoi (trim_space rest)) [
    | err e ↦ err (wrap ("parse pdfinfo Pages line \"" <> line <> "\"") e)
    | ok n ↦ ok n
  ]
]

module _ (m : Machine) where
  pub count_pdf_pages : String → M Call (Result ℤ)
  count_pdf_pages pdf_path = do
    output ← call (run_pdfinfo pdf_path) (λ h. m.run_pdfinfo h pdf_path)
    on_ok output (λ e. err (wrap "run pdfinfo" e)) λ text. pure (pages_of (split_lines text))

  -- `Compile` once latexmk has run.
  read_back : String → M Call (Result CompileResult)
  read_back dir = do
    let pdf_path = dir <> "/resume.pdf"
    pdf ← call (read_file pdf_path) (λ h. m.read_file h pdf_path)
    on_ok pdf (λ e. err (wrap "latex: read compiled pdf" e))
        λ bytes. do
          pages ← count_pdf_pages pdf_path
          on_ok pages (λ e. err (wrap "latex: count pages" e))
              λ n. pure (ok (record { pdf = bytes; page_count = n }))

  after_latexmk : String → String × Option Error → M Call (Result CompileResult)
  after_latexmk dir (output, some e) =
      pure (err (joined (wrap "latex: compile failed" e) (message output)))
  after_latexmk dir (output, none) = read_back dir

  -- `Compile` inside its temporary directory.
  in_dir : LatexmkCompiler → String → String → M Call (Result CompileResult)
  in_dir c tex_source dir = do
    let tex_path = dir <> "/resume.tex"
    let args = latexmk_args dir
    unwritten ← call (write_file tex_path tex_source) (λ h. m.write_file h tex_path tex_source)
    on_nil unwritten (λ e. err (wrap "latex: write source" e))
        do
          ran ← call (run_latexmk (binary c) args) (λ h. m.run_latexmk h (binary c) args)
          after_latexmk dir ran

  -- The deferred removal runs on every way out of the directory.
  pub compile : LatexmkCompiler → String → M Call (Result CompileResult)
  compile c tex_source = do
    made ←
        call (make_temp_dir "careerpilot-resume-*") (λ h. m.make_temp_dir h "careerpilot-resume-*")
    on_ok made (λ e. err (wrap "latex: create temp dir" e))
        λ dir. do
          result ← in_dir c tex_source dir
          removed ← call (remove_all dir) (λ h. tt)
          pure result
