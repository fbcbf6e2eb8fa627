-- ===== src/Job/Scoring.antt =====
-- internal/job/triage.go and evaluate.go: how a model's output becomes a score.
pub mod Laws
use careerpilot.Base.{
  String, ◌<>◌, Bool, ◌||◌, List, [], ◌∷◌, if◌then◌else◌, nat_eq, ◌==◌, string_eq, length, ℤ, pos,
  int_eq, ltb_ℤ, show_ℤ,
}
use careerpilot.Job.Types.{
  apply, review, reject, unrecognized, Recommendation, recommendation_eq, Score,
}

pub record TriageOutput : Type 0 where
  pub role_type : String
  pub fit_score : ℤ
  pub hard_fail : Bool
  pub matched_skills : List String
  pub missing_skills : List String
  pub risk_flags : List String
  pub recommended_resume : String
  pub recommendation : String

pub record EvaluationOutput : Type 0 where
  pub score : ℤ
  pub recommendation : String
  pub reasons : List String
  pub concerns : List String
  pub matched_skills : List String
  pub missing_skills : List String
  pub confidence : String

unfoldable pub clamp_score : ℤ → ℤ
clamp_score v = if ltb_ℤ v (pos 0) then pos 0 else if ltb_ℤ (pos 100) v then pos 100 else v

unfoldable pub normalize_recommendation : String → Recommendation
normalize_recommendation s =
    if s == "apply" || s == "APPLY"
    then apply
    else if s == "reject" || s == "REJECT"
    then reject
    else if s == "review" || s == "REVIEW"
    then review
    else unrecognized

unfoldable pub normalize_confidence : String → String
normalize_confidence c = if c == "high" || c == "medium" || c == "low" then c else "low"

-- The `switch` at the end of `ApplyTriage`: the recommendation and its reason.
triage_verdict : Recommendation → ℤ → Recommendation × List String
triage_verdict apply value = (apply, ("triage fit score " <> show_ℤ value) ∷ [])
triage_verdict reject value =
    (reject, ("triage fit score " <> show_ℤ value <> " below threshold") ∷ [])
triage_verdict _ value = (review, "triage recommendation ambiguous or unrecognized" ∷ [])

unfoldable pub apply_triage : TriageOutput → Score
unfolding triage_verdict normalize_recommendation clamp_score
apply_triage out =
    let value = clamp_score out.fit_score in
    let verdict = triage_verdict (normalize_recommendation out.recommendation) value in
    record {
      value = value;
      recommendation = if out.hard_fail then reject else verdict.0;
      reasons = if out.hard_fail then "triage hard filter failed" ∷ [] else verdict.1;
      concerns = out.risk_flags;
      matched_skills = out.matched_skills;
      missing_skills = out.missing_skills;
      confidence = if out.hard_fail then "high" else "medium";
      evaluated_by = "triage";
    }

-- The `switch` at the end of `ApplyEvaluation`.
evaluation_verdict : Recommendation → List String → Recommendation × List String
evaluation_verdict apply reasons = (apply, reasons)
evaluation_verdict reject reasons = (reject, reasons)
evaluation_verdict _ reasons = (
  review,
  if length reasons == 0
      then "deep evaluation recommendation ambiguous or unrecognized" ∷ []
      else reasons,
)

unfoldable pub apply_evaluation : EvaluationOutput → Score
unfolding evaluation_verdict normalize_recommendation normalize_confidence clamp_score
apply_evaluation out =
    let verdict = evaluation_verdict (normalize_recommendation out.recommendation) out.reasons in
    record {
      value = clamp_score out.score;
      recommendation = verdict.0;
      reasons = verdict.1;
      concerns = out.concerns;
      matched_skills = out.matched_skills;
      missing_skills = out.missing_skills;
      confidence = normalize_confidence out.confidence;
      evaluated_by = "deep_evaluation";
    }
