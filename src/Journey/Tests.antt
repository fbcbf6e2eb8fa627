-- ===== src/Journey/Tests.antt =====
-- An application that goes all the way.
use careerpilot.Base.{
  int_eq, ◌≡◌, refl, inr, true, some, pos, [], ◌∷◌, map, arith, nat_eq, string_eq, ok,
}
use careerpilot.Candidate.{allowed_set}
use careerpilot.Application.Types
use careerpilot.Application.Types.{Application, Answer, auto, answer_confidence_eq}
use careerpilot.Application.Gate.Laws.{IsSafe, evaluate_safety_gate_exact}
use careerpilot.Application.Answers.{classify, always_review, first_missing}
use careerpilot.Application.Gate.{SafetyGateInput, evaluate_safety_gate}
use careerpilot.Application.Workflow.Path.{prepare, prepare_exact}
use careerpilot.Application.Samples.{answer, claim, application, gate_input, score}
use careerpilot.Resume.Latex.{new_latexmk_compiler}
use careerpilot.Resume.Latex.Tests.{engine, machine, decided, past}
use careerpilot.Browser.Types.{normal, Outcome, is_expired}
use careerpilot.Browser.Steps.{save_session}
use careerpilot.Browser.Runner.{SubmitInput, submit, confirmed, click, after_submit, after_click}
use careerpilot.Browser.Samples.{runner, submit_input}
use careerpilot.Journey.{IsJustified, submission-IsJustified}

abbrev classified : Application
classified = record (application Types.Status.discovered) {
  answers = map (λ x. classify x (claim ∷ [])) (answer ∷ []);
}

abbrev asked : SafetyGateInput
asked = record gate_input { application = classified }

abbrev made_ready : Application
made_ready = record classified {
  status = Types.Status.ready;
  resume_version_id = "v1";
  safety_gate = some (evaluate_safety_gate asked);
}

abbrev input : SubmitInput
input = record (submit_input true) { gate_result = evaluate_safety_gate asked }

answers_itself : (classify answer (claim ∷ [])).status ≡ auto
unfolding classify always_review answer_confidence_eq first_missing allowed_set string_eq nat_eq
answers_itself = refl

asked-IsSafe : IsSafe asked
asked-IsSafe = record {
  job_verified = refl;
  resume_verified = refl;
  answers_resolved = ((λ waits. ground (arith, answers_itself)), tt);
  not_duplicate = refl;
  platform_known = λ p. absurd (ground arith);
  platform_permits = λ p. absurd (ground arith);
  below_limit = inr (omega arith);
}

passes : (evaluate_safety_gate asked).passed ≡ true
passes = (evaluate_safety_gate_exact asked).0.1 asked-IsSafe

is_prepared : prepare classified score decided (evaluate_safety_gate asked) ≡ ok made_ready
is_prepared =
    (prepare_exact classified made_ready score decided (evaluate_safety_gate asked) refl).1
      (refl, inr refl, passes, refl)

is_submitted : (submit (runner normal) input []).0.0.outcome ≡ Outcome.submitted
unfolding submit confirmed click after_submit after_click save_session is_expired int_eq
is_submitted = rw passes refl

submission-IsJustified_example :
    IsJustified engine machine new_latexmk_compiler
      (λ h. [])
      (λ h. pos 7)
      decided
      past
      (claim ∷ [])
      (answer ∷ [])
      asked
      refl
      (runner normal)
      score
      input
      []
submission-IsJustified_example =
    submission-IsJustified engine machine new_latexmk_compiler (λ h. []) (λ h. pos 7) decided past
      (claim ∷ []) (answer ∷ []) asked refl (runner normal) classified made_ready score input []
      (λ verified. refl) refl is_prepared refl is_submitted
