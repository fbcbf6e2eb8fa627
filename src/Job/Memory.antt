-- ===== src/Job/Memory.antt =====
-- An environment of internal/job that keeps in its record what is saved, for the runs on examples.
use careerpilot.Base.{
  String, false, ◌&&◌, Option, none, some, List, [], ◌∷◌, if◌then◌else◌, nat_eq, ◌==◌, string_eq, ℤ,
  pos, negsuc, int_eq, ok,
}
use careerpilot.ModelProvider.Recorder
use careerpilot.Job.Types
use careerpilot.Job.Types.{Job, RawJob, Evaluation, Call, Store}
use careerpilot.Job.Scoring.{TriageOutput, EvaluationOutput}
use careerpilot.Job.Pipeline.{Env}

abbrev pub raw : RawJob
raw = record {
  source_job_id = "";
  url = "https://jobs.example/1";
  company = "Acme";
  title = "Go engineer";
  location = "Remote";
  description = "";
  extra = [];
}

abbrev pub sha : String → String
sha s = s

-- The last saved job with a fingerprint.
unfoldable pub find_saved : List Call → String → Option Job
find_saved [] hash = none
find_saved (Types.save_job k ∷ h) hash =
    let rest = find_saved h hash in if k.normalized_hash == hash then some k else rest
find_saved (_ ∷ h) hash = find_saved h hash

unfoldable pub store : Store
store = record {
  count_discovered_since = λ h since. ok (pos 1);
  find_by_source_job_id = λ h source id. ok none;
  find_by_normalized_hash = λ h hash. ok (find_saved h hash);
  save_job = λ h j. ok j;
}

abbrev pub triage_output : TriageOutput
triage_output = record {
  role_type = "backend";
  fit_score = pos 120;
  hard_fail = false;
  matched_skills = "go" ∷ [];
  missing_skills = [];
  risk_flags = [];
  recommended_resume = "software-engineer";
  recommendation = "review";
}

abbrev pub evaluation_output : EvaluationOutput
evaluation_output = record {
  score = negsuc 4;
  recommendation = "APPLY";
  reasons = [];
  concerns = [];
  matched_skills = [];
  missing_skills = [];
  confidence = "certain";
}

abbrev pub model : Recorder.Env
model = record {
  provider_name = "fake";
  generate = λ h req. (record { text = "{}"; input_tokens = pos 1; output_tokens = pos 1 }, none);
  save_run = λ h run. none;
  new_id = λ h. "r1";
  now = λ h. pos 0;
}

-- The last saved evaluation of a job and a stage.
unfoldable pub find_evaluation : List Call → String → String → Option Evaluation
find_evaluation [] id stage = none
find_evaluation (Types.save_evaluation e ∷ h) id stage =
    let rest = find_evaluation h id stage in
    if (e.job_id == id) && (e.stage == stage) then some e else rest
find_evaluation (_ ∷ h) id stage = find_evaluation h id stage

unfoldable pub env : ℤ → Env
env limit = record {
  store = store;
  limits = record { jobs_discovered_per_day = limit; deep_evaluations_per_day = pos 30 };
  triage_prompt = λ j. j.title;
  evaluation_prompt = λ j. j.description;
  triage_model = λ h. model;
  evaluation_model = λ h. model;
  decode_triage = λ text. ok triage_output;
  decode_evaluation = λ text. ok evaluation_output;
  get_evaluation = λ h id stage. ok (find_evaluation h id stage);
  save_evaluation = λ h e. none;
  count_deep_evaluations_since = λ h since. ok (pos 0);
  new_id = λ h. "e1";
  now = λ h. pos 0;
}
