-- ===== src/Journey.antt =====
-- From a posting to a submitted application: internal/resume, internal/application
-- and internal/browser together.
mod Tests
use careerpilot.Base.{
  true, ◌≡◌, ◌≢◌, ◌⊎◌, inl, inr, false, some, List, [], ◌∷◌, map, All, ok, ℕ, arith, pos, Time,
}
use careerpilot.Candidate.{Claim}
use careerpilot.Job.Types.{Score, recommendation_eq, apply}
use careerpilot.Resume.Version.{Version, validated, approved}
use careerpilot.Resume.Pipeline
use careerpilot.Resume.Pipeline.History.{History, decisions, Fits}
use careerpilot.Resume.Latex
use careerpilot.Resume.Latex.{TemplateEngine, Machine, LatexmkCompiler}
use careerpilot.Resume.Latex.Generated.{latex_toolchain, IsMade, history-IsMade}
use careerpilot.Resume.Pipeline.Provenance.{IsAllowed}
use careerpilot.Application.Types
use careerpilot.Application.Types.{Application, Answer, high, review, auto}
use careerpilot.Application.Answers.{always_review, classify}
use careerpilot.Application.Answers.Laws.{classify_exact}
use careerpilot.Application.Gate.{SafetyGateInput, evaluate_safety_gate}
use careerpilot.Application.Gate.Laws.{IsSafe, evaluate_safety_gate_exact}
use careerpilot.Application.Workflow.Path.{prepare, prepare_exact}
use careerpilot.Browser.Types.{Call, Runner, Outcome}
use careerpilot.Browser.Runner.{SubmitInput, submit}
use careerpilot.Browser.Runner.Submitted.{IsConfirmed, submitted_needs_signal}

-- What an answer must be like to be given with no person asked.
abbrev pub Supported : List Claim → Answer → Type 0
Supported claims x =
    (always_review x.category ≡ false)
    × (x.confidence ≡ high)
    × (x.claim_ids ≢ [])
    × All (IsAllowed claims) x.claim_ids

classified-Supported :
    (claims : List Claim) (answers : List Answer)
    → All (λ x. x.status ≢ review) (map (λ x. classify x claims) answers)
    → All (Supported claims) answers
classified-Supported claims [] resolved = tt
classified-Supported claims (x ∷ answers) (here, resolved) =
    let (exactly_auto, either, rest) = classify_exact x claims in
    let is_auto : (classify x claims).status ≡ auto = elim either [
      | inl done ↦ done
      | inr waits ↦ absurd (here waits)
    ] in
    (exactly_auto.0 is_auto, classified-Supported claims answers resolved)

-- An APPROVED version has been decided upon once.
approved-decided : (n : ℕ) (v : Version) → Fits n v → v.status ≡ approved → n ≡ 1
approved-decided n v fits is_approved = ground arith

module _ (t : TemplateEngine) (m : Machine) (c : LatexmkCompiler)
    (asked : List Pipeline.Call → List Latex.Call) (now : List Pipeline.Call → Time)
    (version : Version) (past : History (latex_toolchain t m c asked now) version)
    (claims : List Claim) (answers : List Answer) (i : SafetyGateInput)
    (classified : i.application.answers ≡ map (λ x. classify x claims) answers) (r : Runner) where
  -- What a submission rests on.
  pub record IsJustified (score : Score) (j : SubmitInput) (h : List Call) : Type 0 where
    pub recommended : score.recommendation ≡ apply
    pub resume_made : IsMade t m c asked now version
    pub resume_approved : version.status ≡ approved
    pub decided_once : decisions past ≡ 1
    pub answers_supported : All (Supported claims) answers
    pub gate_held : IsSafe i
    pub confirmed : IsConfirmed r j h

  -- Where a resume version is generated over the LaTeX toolchain, then saved and decided upon any
  -- number of times, the answers are classified, the gate is asked about them and told that the
  -- resume is verified only if the version is APPROVED, the workflow makes the application READY
  -- with that version and that gate's result, and the runner is handed this result, a submission
  -- ends in SUBMITTED only if the score recommended to apply, the resume was rendered, compiled and
  -- counted, a human approved it in its one decision, every answer was one that may be given with no
  -- person asked, with high confidence and from allowed claims, every condition of the gate held,
  -- and the page showed the submission.
  pub submission-IsJustified :
      (a b : Application) (score : Score) (j : SubmitInput) (h : List Call)
      → (i.resume_verified ≡ true → version.status ≡ approved)
      → a.status ≡ Types.Status.discovered
      → prepare a score version (evaluate_safety_gate i) ≡ ok b
      → b.safety_gate ≡ some j.gate_result
      → (submit r j h).0.0.outcome ≡ Outcome.submitted
      → IsJustified score j h
  submission-IsJustified a b score j h verified discovered prepared handed done =
      let (recommended, usable, passed, result) =
        (prepare_exact a b score version (evaluate_safety_gate i) discovered).0 prepared in
      let safe = (evaluate_safety_gate_exact i).0.0 passed in
      let (made, fits) = history-IsMade t m c asked now version past in
      let is_approved = verified safe.resume_verified in
      record {
        recommended = recommended;
        resume_made = made;
        resume_approved = is_approved;
        decided_once = approved-decided (decisions past) version fits is_approved;
        answers_supported =
            classified-Supported claims answers (rw classified at safe.answers_resolved);
        gate_held = safe;
        confirmed = submitted_needs_signal r j h done;
      }
