-- ===== src/Application/Types.antt =====
-- internal/application/application.go and the structs of answer.go and safety_gate.go. A string
-- type with named constants is a data type; `unlisted` is a string that is none of them, where the
-- code's behaviour at such a string matters.
use careerpilot.Base.{String, Bool, Option, List, Eq, Time}

pub data AnswerConfidence : Type 0 where
  high medium low : AnswerConfidence

pub AnswerConfidence-discrete : Discrete AnswerConfidence
AnswerConfidence-discrete = hlevel

instance unfoldable pub answer_confidence_eq : Eq AnswerConfidence
unfolding AnswerConfidence-discrete
answer_confidence_eq = record { dec = AnswerConfidence-discrete }

-- `unset` is the zero value of a fresh answer.
pub data AnswerStatus : Type 0 where
  unset auto review : AnswerStatus

pub AnswerStatus-discrete : Discrete AnswerStatus
AnswerStatus-discrete = hlevel

instance unfoldable pub answer_status_eq : Eq AnswerStatus
unfolding AnswerStatus-discrete
answer_status_eq = record { dec = AnswerStatus-discrete }

pub data Category : Type 0 where
  personal education employment work_authorization sponsorship relocation : Category
  compensation demographic legal_declaration experience preferences other : Category
  unlisted : String → Category

abbrev pub category_text : Category → String
category_text personal = "personal"
category_text education = "education"
category_text employment = "employment"
category_text work_authorization = "work_authorization"
category_text sponsorship = "sponsorship"
category_text relocation = "relocation"
category_text compensation = "compensation"
category_text demographic = "demographic"
category_text legal_declaration = "legal_declaration"
category_text experience = "experience"
category_text preferences = "preferences"
category_text other = "other"
category_text (unlisted s) = s

pub record Answer : Type 0 where
  pub id : String
  pub question_text : String
  pub category : Category
  pub answer_text : String
  pub claim_ids : List String
  pub confidence : AnswerConfidence
  pub status : AnswerStatus
  pub reason : String

pub data Status : Type 0 where
  discovered qualified preparing review ready starting navigating filling : Status
  verifying submitting submitted human_required failed expired cancelled : Status

pub Status-discrete : Discrete Status
Status-discrete = hlevel

instance unfoldable pub status_eq : Eq Status
unfolding Status-discrete
status_eq = record { dec = Status-discrete }

abbrev pub status_text : Status → String
status_text discovered = "DISCOVERED"
status_text qualified = "QUALIFIED"
status_text preparing = "PREPARING"
status_text review = "REVIEW"
status_text ready = "READY"
status_text starting = "STARTING"
status_text navigating = "NAVIGATING"
status_text filling = "FILLING"
status_text verifying = "VERIFYING"
status_text submitting = "SUBMITTING"
status_text submitted = "SUBMITTED"
status_text human_required = "HUMAN_REQUIRED"
status_text failed = "FAILED"
status_text expired = "EXPIRED"
status_text cancelled = "CANCELLED"

pub record SafetyGateResult : Type 0 where
  pub passed : Bool
  pub reasons : List String

pub record Application : Type 0 where
  pub id : String
  pub job_id : String
  pub profile_id : String
  pub resume_version_id : String
  pub answers : List Answer
  pub status : Status
  pub safety_gate : Option SafetyGateResult
  pub duplicate_of_id : String
  pub created_at : Time
  pub updated_at : Time
