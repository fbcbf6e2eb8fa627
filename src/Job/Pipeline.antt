-- ===== src/Job/Pipeline.antt =====
-- internal/job/pipeline.go, with `Triager.Triage` and `Evaluator.Evaluate`: triage, then deep
-- evaluation, under daily limits and with no work done twice. JSON decoding is the environment's.
pub mod Laws
pub mod Daily
pub mod Once
pub mod Stored
pub mod Again
mod Tests
pub mod Reads
use careerpilot.Base.{
  String, ◌<>◌, Option, none, some, List, [], ◌∷◌, if◌then◌else◌, nat_eq, ◌==◌, string_eq, ℤ, pos,
  int_eq, leb_ℤ, show_ℤ, Error, nest, message, wrap, Result, ok, err, M, ◌>>=◌, pure, call, on_ok,
  Time, start_of_day,
}
use careerpilot.ModelProvider.Recorder
use careerpilot.ModelProvider.Recorder.{Request, Response, generate}
use careerpilot.Job.Types
use careerpilot.Job.Types.{
  apply, recommendation_eq, Job, Score, Evaluation, Call, read_clock, model_call, Store,
}
use careerpilot.Job.Scoring.{TriageOutput, EvaluationOutput, apply_triage, apply_evaluation}

pub record Limits : Type 0 where
  pub jobs_discovered_per_day : ℤ
  pub deep_evaluations_per_day : ℤ

-- What a `Pipeline` holds: its stores, prompts, models, limits, id generator and clock. The model
-- environments start from the calls made so far.
pub record Env : Type 0 where
  pub store : Store
  pub limits : Limits
  pub triage_prompt : Job → String
  pub evaluation_prompt : Job → String
  pub triage_model : List Call → Recorder.Env
  pub evaluation_model : List Call → Recorder.Env
  pub decode_triage : String → Result TriageOutput
  pub decode_evaluation : String → Result EvaluationOutput
  pub get_evaluation : List Call → String → String → Result (Option Evaluation)
  pub save_evaluation : List Call → Evaluation → Option Error
  pub count_deep_evaluations_since : List Call → Time → Result ℤ
  pub new_id : List Call → String
  pub now : List Call → Time

abbrev request : String → String → Request
request job_id prompt = record {
  prompt = prompt;
  max_tokens = pos 0;
  temperature = pos 0;
  metadata = ("job_id", job_id) ∷ [];
}

-- What `Triage` and `Evaluate` make of the recorder's answer.
parse_response :
    {A : Type 0} → String → String → (String → Result A) → Response × Option Error → Result A
parse_response failed malformed decode (resp, some e) = err (wrap failed e)
parse_response failed malformed decode (resp, none) = elim (decode resp.text) [
  | ok out ↦ ok out
  | err e ↦ err (wrap malformed e)
]

unfoldable pub triage : Env → String → String → M Call (Result TriageOutput)
unfolding generate parse_response
triage env job_id prompt = do
  answer ← nest model_call (λ h. generate (env.triage_model h) "job_triage" (request job_id prompt))
  pure (
      parse_response "job: triage generate" "job: triage response is not valid TriageOutput JSON"
        env.decode_triage answer)

unfoldable pub evaluate : Env → String → String → M Call (Result EvaluationOutput)
unfolding generate parse_response
evaluate env job_id prompt = do
  answer ←
      nest model_call
        (λ h. generate (env.evaluation_model h) "job_deep_evaluation" (request job_id prompt))
  pure (
      parse_response "job: evaluate generate"
        "job: evaluation response is not valid EvaluationOutput JSON" env.decode_evaluation answer)

-- The `if err := SaveEvaluation(...); err != nil` at the end of both stages.
saved : String → Score → Option Error → Result Score
saved failed score none = ok score
saved failed score (some e) = err (wrap failed e)

unfoldable pub save_score : Env → String → String → Score → String → M Call (Result Score)
unfolding saved
save_score env job_id stage score failed = do
  id ← call Types.new_id env.new_id
  created ← call read_clock env.now
  let e : Evaluation = record {
    id = id;
    job_id = job_id;
    stage = stage;
    score = score;
    created_at = created;
  }
  failure ← call (Types.save_evaluation e) (λ h. env.save_evaluation h e)
  pure (saved failed score failure)

unfoldable pub triage_anew : Env → Job → M Call (Result Score)
triage_anew env j = do
  out ← triage env j.id (env.triage_prompt j)
  on_ok out (λ e. err e)
      λ out. save_score env j.id "triage" (apply_triage out) "job: save triage evaluation"

unfoldable pub run_triage : Env → Job → M Call (Result Score)
run_triage env j = do
  existing ← call (Types.get_evaluation j.id "triage") (λ h. env.get_evaluation h j.id "triage")
  on_ok existing (λ e. err (wrap "job: check triage idempotency" e))
      λ found. elim found [ some e ↦ pure (ok e.score) | none ↦ triage_anew env j ]

evaluate_anew : Env → Job → M Call (Result Score)
evaluate_anew env j = do
  out ← evaluate env j.id (env.evaluation_prompt j)
  on_ok out (λ e. err e)
      λ out.
        save_score env j.id "deep_evaluation" (apply_evaluation out) "job: save deep evaluation"

pub run_deep_evaluation : Env → Job → M Call (Result Score)
run_deep_evaluation env j = do
  existing ←
      call (Types.get_evaluation j.id "deep_evaluation")
        (λ h. env.get_evaluation h j.id "deep_evaluation")
  on_ok existing (λ e. err (wrap "job: check deep-evaluation idempotency" e))
      λ found. elim found [ some e ↦ pure (ok e.score) | none ↦ evaluate_anew env j ]

-- `Process` behind a triage that recommends to apply.
deepen : Env → Time → Job → Score → M Call (Result Score)
deepen env start j triage_score = do
  count ←
      call (Types.count_deep_evaluations_since start)
        (λ h. env.count_deep_evaluations_since h start)
  on_ok count (λ e. err (wrap "job: check deep-eval limit" e))
      λ n.
        if leb_ℤ env.limits.deep_evaluations_per_day n
        then pure (ok triage_score)
        else run_deep_evaluation env j

pub process : Env → Job → M Call (Result Score)
process env j = do
  now ← call read_clock env.now
  let start = start_of_day now
  count ← call (Types.count_discovered_since start) (λ h. env.store.count_discovered_since h start)
  on_ok count (λ e. err (wrap "job: check discovery limit" e))
      λ n.
        if leb_ℤ env.limits.jobs_discovered_per_day n
        then pure (
            err (
              message (
                "job: daily discovery limit ("
                <> show_ℤ env.limits.jobs_discovered_per_day
                <> ") reached")))
        else do
          triaged ← run_triage env j
          on_ok triaged (λ e. err e)
              λ score.
                if score.recommendation == apply then deepen env start j score else pure (ok score)
