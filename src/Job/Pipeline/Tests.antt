-- ===== src/Job/Pipeline/Tests.antt =====
-- Two runs over one job, of which the first uses up the limit of deep evaluations.
use careerpilot.Base.{◌≡◌, refl, List, [], ◌∷◌, arith, string_eq, pos, ok, start_of_day}
use careerpilot.Job.Types
use careerpilot.Job.Types.{Job, Score, Call, recommendation_eq}
use careerpilot.Job.Scoring.{apply_triage, apply_evaluation}
use careerpilot.Job.Normalize.{normalize}
use careerpilot.Job.Memory.{raw, sha, triage_output, evaluation_output, find_evaluation, store, env}
use careerpilot.Job.Pipeline.{
  Env, process, deepen, run_triage, triage_anew, run_deep_evaluation, evaluate_anew, save_score,
  triage, evaluate,
}
use careerpilot.Job.Pipeline.Stored.{Keeps}
use careerpilot.Job.Pipeline.Again.{counted, Repeats, process_again}
use careerpilot.Job.Pipeline.Daily.{deep_evaluations}

abbrev posting : Job
posting = normalize sha "greenhouse" raw

-- The limit of deep evaluations is one, which the first run uses up.
abbrev one_deep : Env
one_deep = record (env (pos 100)) {
  decode_triage = λ text. ok (record triage_output { recommendation = "apply" });
  count_deep_evaluations_since = λ h since. ok (pos (deep_evaluations h));
  limits = record { jobs_discovered_per_day = pos 100; deep_evaluations_per_day = pos 1 };
}

one_deep-Keeps : Keeps one_deep
unfolding env find_evaluation
one_deep-Keeps = record {
  finds_saved = λ h e saved. ground arith;
  unchanged = λ c h id stage elsewhere. ground arith;
}

abbrev deep_score : Score
deep_score = apply_evaluation evaluation_output

abbrev after_first : List Call
after_first = Types.read_clock ∷ (process one_deep posting []).1

goes_deep : (process one_deep posting []).0 ≡ ok deep_score
unfolding process deepen run_triage triage_anew run_deep_evaluation evaluate_anew save_score env
    find_evaluation triage evaluate apply_triage string_eq store recommendation_eq normalize
goes_deep = refl

none_before :
    one_deep.count_deep_evaluations_since
      (run_triage one_deep posting (counted one_deep [])).1
      (start_of_day (one_deep.now []))
    ≡ ok (pos 0)
unfolding run_triage triage_anew save_score env find_evaluation triage apply_triage string_eq
none_before = refl

one_since :
    one_deep.count_deep_evaluations_since
      (Types.get_evaluation posting.id "triage" ∷ counted one_deep after_first)
      (start_of_day (one_deep.now after_first))
    ≡ ok (pos 1)
unfolding process deepen run_triage triage_anew run_deep_evaluation evaluate_anew save_score env
    find_evaluation triage evaluate apply_triage string_eq store recommendation_eq normalize
one_since = refl

process_again_example : Repeats one_deep one_deep-Keeps posting deep_score (pos 1) after_first
unfolding env store
process_again_example =
    process_again one_deep one_deep-Keeps posting [] (Types.read_clock ∷ []) goes_deep none_before
      (omega arith) ((refl, refl), tt) refl (omega arith) one_since
