-- ===== src/Resume/Tests.antt =====
-- The operations of internal/resume on one version, and the compiler of one document.
use careerpilot.Base.{
  ◌≡◌, refl, ◌↔◌, true, some, [], ◌∷◌, nat_eq, contains, string_eq, pos, int_eq, ok,
}
use careerpilot.Candidate.{Claim, source_profile, confidence_high}
use careerpilot.Resume.Version.{variant_fde, validated, Change, Version}
use careerpilot.Resume.Validation.{validate_page_count}
use careerpilot.Resume.Pipeline.{
  TemplateData, GenerateInput, Toolchain, generate, validate_claim_provenance,
}
use careerpilot.Resume.Pipeline.Provenance.{
  IsAllowed, refers_to, contains-validate_claim_provenance,
}

abbrev change : Change
change = record { description = "lead with Go"; claim_ids = "c1" ∷ "c2" ∷ [] }

abbrev claim : Claim
claim = record {
  id = "c1";
  profile_id = "p1";
  profile_version = pos 1;
  text = "5 years of Go";
  source = source_profile;
  confidence = confidence_high;
  allowed_for_resume = true;
  notes = "";
  created_at = pos 0;
}

abbrev content : TemplateData
content = record {
  full_name = "K";
  email = "";
  phone = "";
  location = "";
  linked_in = "";
  git_hub = "";
  summary = "";
  employment = [];
  education = [];
  projects = [];
  skills = [];
}

abbrev input : GenerateInput
input = record {
  profile_id = "p1";
  profile_version = pos 1;
  variant = variant_fde;
  version_number = pos 2;
  target_role = "engineer";
  job_id = "j1";
  template_name = "fde";
  template_source = "<< .FullName >>";
  content = content;
  changes = change ∷ [];
}

abbrev toolchain : Toolchain
toolchain = record {
  parse_and_execute = λ name source d. ok d.full_name;
  compile = λ h tex. ok (record { pdf = 1 ∷ []; page_count = pos 1 });
  now = λ h. pos 7;
}

abbrev version : Version
version = record {
  id = "";
  profile_id = "p1";
  profile_version = pos 1;
  variant = variant_fde;
  version_number = pos 2;
  target_role = "engineer";
  job_id = "j1";
  source_tex = "K";
  generated_pdf = 1 ∷ [];
  page_count = pos 1;
  changes = change ∷ [];
  status = validated;
  validation = some (record { passed = true; page_count = pos 1; reasons = [] });
  created_at = pos 7;
  approved_at = pos 0;
}

generates_one : (generate toolchain input []).0 ≡ ok version
unfolding generate validate_page_count
generates_one = refl

contains-validate_claim_provenance_example :
    (contains (validate_claim_provenance (change ∷ []) (claim ∷ [])) "c2" ≡ true)
    ↔ ((refers_to (change ∷ []) "c2" ≡ true) × ¬ IsAllowed (claim ∷ []) "c2")
contains-validate_claim_provenance_example =
    contains-validate_claim_provenance (change ∷ []) (claim ∷ []) "c2"
