-- ===== src/Resume/Version.antt =====
-- internal/resume/resume.go and the structs of validation.go: versions and status transitions.
use careerpilot.Base.{
  ℕ, String, Bool, Option, List, [], ◌∷◌, nat_eq, Eq, ◌==◌, string_eq, any, ℤ, int_eq, Time,
}

pub data VariantType : Type 0 where
  variant_software_engineer variant_fde : VariantType

abbrev pub variant_text : VariantType → String
variant_text variant_software_engineer = "software-engineer"
variant_text variant_fde = "fde"

pub data Status : Type 0 where
  draft generated validated review approved rejected : Status

pub Status-discrete : Discrete Status
Status-discrete = hlevel

instance unfoldable pub status_eq : Eq Status
unfolding Status-discrete
status_eq = record { dec = Status-discrete }

abbrev pub status_text : Status → String
status_text draft = "DRAFT"
status_text generated = "GENERATED"
status_text validated = "VALIDATED"
status_text review = "REVIEW"
status_text approved = "APPROVED"
status_text rejected = "REJECTED"

pub valid_transitions : Status → List Status
valid_transitions draft = generated ∷ []
valid_transitions generated = validated ∷ review ∷ []
valid_transitions validated = review ∷ approved ∷ []
valid_transitions review = approved ∷ rejected ∷ generated ∷ []
valid_transitions approved = []
valid_transitions rejected = []

unfoldable pub valid_transition : Status → Status → Bool
unfolding valid_transitions
valid_transition from to = any (λ allowed. allowed == to) (valid_transitions from)

pub record Change : Type 0 where
  pub description : String
  pub claim_ids : List String

pub record ValidationResult : Type 0 where
  pub passed : Bool
  pub page_count : ℤ
  pub reasons : List String

pub record Version : Type 0 where
  pub id : String
  pub profile_id : String
  pub profile_version : ℤ
  pub variant : VariantType
  pub version_number : ℤ
  pub target_role : String
  pub job_id : String
  pub source_tex : String
  pub generated_pdf : List ℕ
  pub page_count : ℤ
  pub changes : List Change
  pub status : Status
  pub validation : Option ValidationResult
  pub created_at : Time
  pub approved_at : Time
