-- ===== src/Resume/Pipeline.antt =====
-- internal/resume/pipeline.go: render, compile, validate, then a human approves or rejects.
-- The template engine and the LaTeX compiler are the environment.
pub mod Lifecycle
pub mod History
pub mod Provenance
use careerpilot.Base.{
  ℕ, String, ◌<>◌, not, some, List, [], ◌∷◌, ◌++◌, if◌then◌else◌, nat_eq, contains, string_eq, ℤ,
  pos, int_eq, message, wrap, Result, ok, err, M, ◌>>=◌, pure, call, on_ok, Time,
}
use careerpilot.Candidate.{Claim, allowed_set}
use careerpilot.Resume.Version.{
  VariantType, status_text, validated, review, approved, rejected, valid_transition, Change,
  Version,
}
use careerpilot.Resume.Validation.{validate_page_count}

pub record EmploymentEntry : Type 0 where
  pub company : String
  pub title : String
  pub date_range : String
  pub location : String
  pub responsibilities : List String

pub record EducationEntry : Type 0 where
  pub institution : String
  pub degree : String
  pub field_of_study : String
  pub date_range : String

pub record ProjectEntry : Type 0 where
  pub name : String
  pub description : String
  pub technologies : List String

-- `latex.Data`.
pub record TemplateData : Type 0 where
  pub full_name : String
  pub email : String
  pub phone : String
  pub location : String
  pub linked_in : String
  pub git_hub : String
  pub summary : String
  pub employment : List EmploymentEntry
  pub education : List EducationEntry
  pub projects : List ProjectEntry
  pub skills : List String

pub record CompileResult : Type 0 where
  pub pdf : List ℕ
  pub page_count : ℤ

pub record GenerateInput : Type 0 where
  pub profile_id : String
  pub profile_version : ℤ
  pub variant : VariantType
  pub version_number : ℤ
  pub target_role : String
  pub job_id : String
  pub template_name : String
  pub template_source : String
  pub content : TemplateData
  pub changes : List Change

pub data Call : Type 0 where
  read_clock : Call
  compile_tex : String → Call

-- `text/template` with the delimiters `<<` and `>>`, a `latex.Compiler`, and the clock.
pub record Toolchain : Type 0 where
  pub parse_and_execute : String → String → TemplateData → Result String
  pub compile : List Call → String → Result CompileResult
  pub now : List Call → Time

-- The version that `Generate` returns once the compiler has answered.
compiled_version : GenerateInput → String → Time → CompileResult → Version
compiled_version i tex created result =
    let validation = validate_page_count result.page_count in
    record {
      id = "";
      profile_id = i.profile_id;
      profile_version = i.profile_version;
      variant = i.variant;
      version_number = i.version_number;
      target_role = i.target_role;
      job_id = i.job_id;
      source_tex = tex;
      generated_pdf = result.pdf;
      page_count = result.page_count;
      changes = i.changes;
      status = if validation.passed then validated else review;
      validation = some validation;
      created_at = created;
      approved_at = pos 0;
    }

unfoldable pub generate : Toolchain → GenerateInput → M Call (Result Version)
unfolding compiled_version
generate t i =
    on_ok (t.parse_and_execute i.template_name i.template_source i.content)
      (λ e. err (wrap "resume: render" e))
      λ tex. do
        created ← call read_clock t.now
        compiled ← call (compile_tex tex) (λ h. t.compile h tex)
        on_ok compiled (λ e. err (wrap "resume: compile" e))
            λ result. pure (ok (compiled_version i tex created result))

unfoldable pub approve : Time → Version → Result Version
approve now v =
    if not (valid_transition v.status approved)
    then err (message ("resume: cannot approve version in status " <> status_text v.status))
    else ok (record v { status = approved; approved_at = now })

unfoldable pub reject : Version → Result Version
reject v =
    if not (valid_transition v.status rejected)
    then err (message ("resume: cannot reject version in status " <> status_text v.status))
    else ok (record v { status = rejected })

-- The inner loop of `ValidateClaimProvenance`, over the claims of one change.
missing_claims : List String → List String → List String
missing_claims allowed [] = []
missing_claims allowed (id ∷ ids) =
    let rest = missing_claims allowed ids in if not (contains allowed id) then id ∷ rest else rest

missing_in_changes : List String → List Change → List String
unfolding missing_claims
missing_in_changes allowed [] = []
missing_in_changes allowed (c ∷ cs) =
    missing_claims allowed c.claim_ids ++ missing_in_changes allowed cs

unfoldable pub validate_claim_provenance : List Change → List Claim → List String
unfolding missing_in_changes allowed_set
validate_claim_provenance changes allowed = missing_in_changes (allowed_set allowed) changes
