-- ===== src/Application/Gate/Laws.antt =====
-- What a passed safety gate guarantees, and what it takes to be READY.
use careerpilot.Base.{
  String, ◌≡◌, ◌≢◌, ◌↔◌, ◌⊎◌, true, false, some, [], arith, All, pos, ◌≤ℤ◌, ◌<ℤ◌, ok,
}
use careerpilot.Application.Types.{
  review, ready, status_eq, AnswerStatus, SafetyGateResult, Application,
}
use careerpilot.Application.State.{transition, valid_transition}
use careerpilot.Application.Answers.Laws.{has_unresolved_review_exact}
use careerpilot.Application.Gate.{
  policy_unknown, policy_allowed, policy_denied, unlisted, SafetyGateInput, evaluate_safety_gate,
  make_ready,
}

-- Every condition that the gate names.
pub record IsSafe (i : SafetyGateInput) : Type 0 where
  pub job_verified : i.job_verified ≡ true
  pub resume_verified : i.resume_verified ≡ true
  pub answers_resolved : All (λ a. a.status ≢ AnswerStatus.review) i.application.answers
  pub not_duplicate : i.is_duplicate ≡ false
  pub platform_known : i.platform ≢ policy_unknown
  pub platform_permits : i.platform ≢ policy_denied
  pub below_limit :
      (i.daily_application_limit ≤ℤ pos 0)
      ⊎ (i.applications_submitted_today <ℤ i.daily_application_limit)

-- The gate passes exactly when all its conditions hold, and it gives reasons exactly when it fails.
pub evaluate_safety_gate_exact :
    (i : SafetyGateInput)
    → let g = evaluate_safety_gate i in
      ((g.passed ≡ true) ↔ IsSafe i) × ((g.passed ≡ true) ↔ (g.reasons ≡ []))
unfolding evaluate_safety_gate
evaluate_safety_gate_exact i = ground (arith, has_unresolved_review_exact i.application.answers)

-- A platform policy that is none of the three named ones passes as an allowed one does.
pub unlisted_platform_passes :
    (i : SafetyGateInput) (s : String)
    → evaluate_safety_gate (record i { platform = unlisted s })
      ≡ evaluate_safety_gate (record i { platform = policy_allowed })
unfolding evaluate_safety_gate
unlisted_platform_passes i s = ground arith

-- An application becomes READY exactly when it is under REVIEW and its gate has passed, and it
-- then carries the result of the gate.
pub make_ready_exact :
    (a b : Application) (g : SafetyGateResult)
    → (make_ready a g ≡ ok b) ↔ (
        (g.passed ≡ true)
        × (a.status ≡ review)
        × (b ≡ record a { status = ready; safety_gate = some g }))
unfolding make_ready transition valid_transition status_eq
make_ready_exact a b g = ground arith
