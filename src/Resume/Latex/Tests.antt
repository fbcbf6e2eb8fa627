-- ===== src/Resume/Latex/Tests.antt =====
-- A compilation on a machine where everything works, whose PDF has one page.
use careerpilot.Base.{
  String, ◌≡◌, refl, none, some, [], ◌∷◌, arith, nat_eq, string_eq, All, pos, int_eq, digits,
  show_ℕ, show_ℤ, join, is_space, trim_space, ok,
}
use careerpilot.Base.Lines.Laws.{OneLine}
use careerpilot.Base.Lines.Trim.{Blank}
use careerpilot.Base.Lines.{split_lines, cut_prefix}
use careerpilot.Base.Number.{atoi, read_digits, read_from}
use careerpilot.Resume.Version.{
  variant_fde, validated, approved, valid_transition, status_eq, Version,
}
use careerpilot.Resume.Validation.{validate_page_count}
use careerpilot.Resume.Pipeline.{TemplateData, GenerateInput, Toolchain, generate, approve}
use careerpilot.Resume.Pipeline.History.{History, generation, saving, approval, decisions, Fits}
use careerpilot.Resume.Latex
use careerpilot.Resume.Latex.{
  TemplateEngine, Machine, new_latexmk_compiler, render, pages_of, count_pdf_pages, read_back,
  after_latexmk, in_dir, compile,
}
use careerpilot.Resume.Latex.Pages.{pages_line, Others, count_pdf_pages-join}
use careerpilot.Resume.Latex.Generated.{latex_toolchain, IsMade, history-IsMade}

abbrev pub printed : String
printed = join ("Title: Resume" ∷ "Pages:   1" ∷ "File size: 9 bytes" ∷ []) "\n"

abbrev pub engine : TemplateEngine
engine = record { parse = λ name source. ok source; execute = λ tmpl content. ok tmpl }

abbrev pub machine : Machine
machine = record {
  make_temp_dir = λ h pattern. ok "/tmp/careerpilot-resume-1";
  write_file = λ h path text. none;
  run_latexmk = λ h name args. ("done", none);
  read_file = λ h path. ok (37 ∷ 80 ∷ []);
  run_pdfinfo = λ h path. ok printed;
}

plain_lines : All OneLine ("Title: Resume" ∷ pages_line "   " (pos 1) ∷ "File size: 9 bytes" ∷ [])
unfolding show_ℤ show_ℕ digits
plain_lines = ground arith

others : Others ("Title: Resume" ∷ [])
unfolding cut_prefix nat_eq
others = (refl, tt)

three_blanks : Blank "   "
unfolding is_space nat_eq
three_blanks = (refl, (refl, (refl, tt)))

prints :
    machine.run_pdfinfo [] "resume.pdf"
    ≡ ok (join ("Title: Resume" ∷ pages_line "   " (pos 1) ∷ "File size: 9 bytes" ∷ []) "\n")
unfolding show_ℤ show_ℕ digits join
prints = refl

count_pdf_pages-join_example : (count_pdf_pages machine "resume.pdf" []).0 ≡ ok (pos 1)
count_pdf_pages-join_example =
    count_pdf_pages-join machine "resume.pdf" [] "Title: Resume" [] ("File size: 9 bytes" ∷ [])
      "   " (pos 1) plain_lines others three_blanks (omega arith) prints

abbrev pub content : TemplateData
content = record {
  full_name = "K";
  email = "";
  phone = "";
  location = "";
  linked_in = "";
  git_hub = "";
  summary = "";
  employment = [];
  education = [];
  projects = [];
  skills = [];
}

abbrev pub input : GenerateInput
input = record {
  profile_id = "p1";
  profile_version = pos 1;
  variant = variant_fde;
  version_number = pos 2;
  target_role = "engineer";
  job_id = "j1";
  template_name = "fde";
  template_source = "tex";
  content = content;
  changes = [];
}

abbrev pub generated : Version
generated = record {
  id = "";
  profile_id = "p1";
  profile_version = pos 1;
  variant = variant_fde;
  version_number = pos 2;
  target_role = "engineer";
  job_id = "j1";
  source_tex = "tex";
  generated_pdf = 37 ∷ 80 ∷ [];
  page_count = pos 1;
  changes = [];
  status = validated;
  validation = some (validate_page_count (pos 1));
  created_at = pos 7;
  approved_at = pos 0;
}

pub generates :
    (generate
      (latex_toolchain engine machine new_latexmk_compiler (λ h. []) (λ h. pos 7))
      input
      []).0
    ≡ ok generated
unfolding generate render compile in_dir after_latexmk read_back count_pdf_pages pages_of
    split_lines cut_prefix trim_space is_space atoi read_digits read_from nat_eq string_eq
    validate_page_count join int_eq
generates = refl

abbrev pub toolchain : Toolchain
toolchain = latex_toolchain engine machine new_latexmk_compiler (λ h. []) (λ h. pos 7)

abbrev pub decided : Version
decided = record generated { id = "v1"; status = approved; approved_at = pos 9 }

abbrev pub saved : Version
saved = record generated { id = "v1" }

pub approves : approve (pos 9) saved ≡ ok decided
unfolding approve valid_transition status_eq
approves = refl

abbrev pub past : History toolchain decided
past =
    approval (pos 9) saved decided approves
      (saving "v1" generated (generation input [] generated generates))

history-IsMade_example :
    IsMade engine machine new_latexmk_compiler (λ h. []) (λ h. pos 7) decided
    × Fits (decisions past) decided
history-IsMade_example =
    history-IsMade engine machine new_latexmk_compiler (λ h. []) (λ h. pos 7) decided past
