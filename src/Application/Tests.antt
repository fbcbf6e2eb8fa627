-- ===== src/Application/Tests.antt =====
-- The operations of internal/application on one application.
use careerpilot.Base.{
  ◌≡◌, refl, ◌≢◌, ◌↔◌, ◌⊎◌, true, false, some, List, [], ◌∷◌, nat_eq, contains, string_eq, All,
  int_eq, ok,
}
use careerpilot.Resume.Pipeline.Provenance.{IsAllowed}
use careerpilot.Resume.Version
use careerpilot.Resume.Version.{Version}
use careerpilot.Job.Types as JobTypes
use careerpilot.Application.Types.{
  Status, discovered, qualified, preparing, review, ready, starting, navigating, filling, verifying,
  submitting, submitted, high, auto, status_eq, AnswerStatus, Application,
}
use careerpilot.Application.State.{transition, valid_transition, valid_transitions}
use careerpilot.Application.State.Paths.{advance, submitted_needs_steps}
use careerpilot.Application.Answers.{always_review, classify}
use careerpilot.Application.Answers.Laws.{classify_exact}
use careerpilot.Application.Gate.{evaluate_safety_gate}
use careerpilot.Application.Gate.Laws.{IsSafe, evaluate_safety_gate_exact}
use careerpilot.Application.Workflow.Path.{prepare, prepare_exact}
use careerpilot.Application.Samples.{
  answer, claim, application, gate_input, passed_gate, score, version,
}

evaluate_safety_gate_exact_example :
    ((((evaluate_safety_gate gate_input).passed ≡ true) ↔ IsSafe gate_input)
      × (((evaluate_safety_gate gate_input).passed ≡ true)
          ↔ ((evaluate_safety_gate gate_input).reasons ≡ [])))
evaluate_safety_gate_exact_example = evaluate_safety_gate_exact gate_input

abbrev made_ready : Application
made_ready = record (application review) { status = ready; safety_gate = some passed_gate }

-- The whole way of an application, with a person in between.
abbrev whole_way : List Status
whole_way =
    qualified ∷ preparing ∷ review ∷ ready ∷ starting ∷ navigating ∷ filling ∷ verifying
    ∷ submitting ∷ submitted ∷ []

arrives : advance (application discovered) whole_way ≡ ok (application submitted)
unfolding advance transition valid_transition valid_transitions status_eq
arrives = refl

submitted_needs_steps_example :
    (contains whole_way review ≡ true)
    × (contains whole_way ready ≡ true)
    × (contains whole_way submitting ≡ true)
submitted_needs_steps_example =
    submitted_needs_steps (application discovered) whole_way arrives refl refl

classify_exact_example :
    let b = classify answer (claim ∷ []) in
    ((b.status ≡ auto) ↔ (
      (always_review answer.category ≡ false)
      × (answer.confidence ≡ high)
      × (answer.claim_ids ≢ [])
      × All (IsAllowed (claim ∷ [])) answer.claim_ids))
    × ((b.status ≡ auto) ⊎ (b.status ≡ AnswerStatus.review))
    × (b ≡ record answer { status = b.status; reason = b.reason })
classify_exact_example = classify_exact answer (claim ∷ [])

abbrev prepared : Application
prepared = record (application ready) { resume_version_id = "v1"; safety_gate = some passed_gate }

prepare_exact_example :
    (prepare (application discovered) score version passed_gate ≡ ok prepared) ↔ (
      (score.recommendation ≡ JobTypes.apply)
      × ((version.status ≡ Version.validated) ⊎ (version.status ≡ Version.approved))
      × (passed_gate.passed ≡ true)
      × (prepared ≡ record (application discovered) {
        status = ready;
        resume_version_id = version.id;
        safety_gate = some passed_gate;
      }))
prepare_exact_example =
    prepare_exact (application discovered) prepared score version passed_gate refl
