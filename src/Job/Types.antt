-- ===== src/Job/Types.antt =====
-- internal/job/job.go, source.go and score.go, with the calls that the package makes out of itself.
use careerpilot.Base.{
  String, Bool, false, Option, none, some, List, nat_eq, Eq, ◌==◌, string_eq, ℤ, int_eq, Error,
  Result, ok, err, Time,
}
use careerpilot.Base.Dict.{Dict}
use careerpilot.ModelProvider.Recorder

pub data Status : Type 0 where
  discovered normalized triaged evaluated qualified rejected duplicate : Status

pub Status-discrete : Discrete Status
Status-discrete = hlevel

instance unfoldable pub status_eq : Eq Status
unfolding Status-discrete
status_eq = record { dec = Status-discrete }

pub record Job : Type 0 where
  pub id : String
  pub source : String
  pub source_job_id : String
  pub url : String
  pub company : String
  pub title : String
  pub location : String
  pub description : String
  pub remote_policy : String
  pub raw_data : Dict String String
  pub normalized_hash : String
  pub duplicate_of_id : String
  pub status : Status
  pub discovered_at : Time
  pub updated_at : Time

pub record RawJob : Type 0 where
  pub source_job_id : String
  pub url : String
  pub company : String
  pub title : String
  pub location : String
  pub description : String
  pub extra : Dict String String  -- the field `Fields`

-- A source with given jobs, for tests and local development.
pub record MockSource : Type 0 where
  pub source_name : String
  pub jobs : List RawJob
  pub failure : Option Error  -- the field `Err`

pub fetch_mock_jobs : MockSource → Result (List RawJob)
fetch_mock_jobs m = elim m.failure [ some e ↦ err e | none ↦ ok m.jobs ]

-- `unrecognized` is the empty string that `normalizeRecommendation` returns by default.
pub data Recommendation : Type 0 where
  apply review reject unrecognized : Recommendation

pub Recommendation-discrete : Discrete Recommendation
Recommendation-discrete = hlevel

instance unfoldable pub recommendation_eq : Eq Recommendation
unfolding Recommendation-discrete
recommendation_eq = record { dec = Recommendation-discrete }

abbrev pub recommendation_text : Recommendation → String
recommendation_text apply = "APPLY"
recommendation_text review = "REVIEW"
recommendation_text reject = "REJECT"
recommendation_text unrecognized = ""

pub record Score : Type 0 where
  pub value : ℤ
  pub recommendation : Recommendation
  pub reasons : List String
  pub concerns : List String
  pub matched_skills : List String
  pub missing_skills : List String
  pub confidence : String
  pub evaluated_by : String

-- `Evaluation` of pipeline.go.
pub record Evaluation : Type 0 where
  pub id : String
  pub job_id : String
  pub stage : String
  pub score : Score
  pub created_at : Time

-- The calls to the job store, the list of pending jobs, the evaluation store, the id generator, the clock, the job sources,
-- and those of the model recorder.
pub data Call : Type 0 where
  count_discovered_since : Time → Call
  find_by_source_job_id : String → String → Call
  find_by_normalized_hash : String → Call
  save_job : Job → Call
  fetch_jobs : String → Call
  list_pending_evaluation : ℤ → Call
  get_evaluation : String → String → Call
  save_evaluation : Evaluation → Call
  count_deep_evaluations_since : Time → Call
  new_id read_clock : Call
  model_call : Recorder.Call → Call

-- `job.Store`, as far as the package and the scheduler call it.
pub record Store : Type 0 where
  pub count_discovered_since : List Call → Time → Result ℤ
  pub find_by_source_job_id : List Call → String → String → Result (Option Job)
  pub find_by_normalized_hash : List Call → String → Result (Option Job)
  pub save_job : List Call → Job → Result Job

-- A call that saved a job with this fingerprint.
abbrev pub is_save_of : String → Call → Bool
is_save_of hash (save_job k) = k.normalized_hash == hash
is_save_of hash _ = false
