-- ===== src/Application/Samples.antt =====
-- An application, its answers and its gate, for the runs on examples.
use careerpilot.Base.{true, false, none, [], ◌∷◌, pos}
use careerpilot.Candidate.{Claim, source_profile, confidence_high}
use careerpilot.Resume.Version
use careerpilot.Resume.Version.{Version, variant_fde}
use careerpilot.Job.Types as JobTypes
use careerpilot.Job.Types.{Score}
use careerpilot.Application.Types.{
  Status, review, high, AnswerStatus, Category, Answer, Application, SafetyGateResult,
}
use careerpilot.Application.Gate.{SafetyGateInput, policy_allowed}

abbrev pub answer : Answer
answer = record {
  id = "q1";
  question_text = "How many years of Go?";
  category = Category.experience;
  answer_text = "5";
  claim_ids = "c1" ∷ [];
  confidence = high;
  status = AnswerStatus.unset;
  reason = "";
}

abbrev pub claim : Claim
claim = record {
  id = "c1";
  profile_id = "p1";
  profile_version = pos 1;
  text = "5 years of Go";
  source = source_profile;
  confidence = confidence_high;
  allowed_for_resume = true;
  notes = "";
  created_at = pos 0;
}

abbrev pub application : Status → Application
application status = record {
  id = "a1";
  job_id = "j1";
  profile_id = "p1";
  resume_version_id = "";
  answers = answer ∷ [];
  status = status;
  safety_gate = none;
  duplicate_of_id = "";
  created_at = pos 0;
  updated_at = pos 0;
}

abbrev pub gate_input : SafetyGateInput
gate_input = record {
  application = application review;
  job_verified = true;
  resume_verified = true;
  is_duplicate = false;
  platform = policy_allowed;
  applications_submitted_today = pos 3;
  daily_application_limit = pos 15;
}

abbrev pub passed_gate : SafetyGateResult
passed_gate = record { passed = true; reasons = [] }

abbrev pub score : Score
score = record {
  value = pos 80;
  recommendation = JobTypes.apply;
  reasons = "fits" ∷ [];
  concerns = [];
  matched_skills = [];
  missing_skills = [];
  confidence = "high";
  evaluated_by = "deep_evaluation";
}

abbrev pub version : Version
version = record {
  id = "v1";
  profile_id = "p1";
  profile_version = pos 1;
  variant = variant_fde;
  version_number = pos 1;
  target_role = "engineer";
  job_id = "j1";
  source_tex = "";
  generated_pdf = [];
  page_count = pos 1;
  changes = [];
  status = Version.validated;
  validation = none;
  created_at = pos 0;
  approved_at = pos 0;
}
