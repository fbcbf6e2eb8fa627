-- ===== src/Application/Workflow/Path.antt =====
-- The way from a job to READY through the operations of the workflow.
use careerpilot.Base.{◌≡◌, ◌↔◌, ◌⊎◌, true, some, arith, Result, ok, err}
use careerpilot.Job.Types.{Score, recommendation_eq, apply}
use careerpilot.Resume.Version.{Version, validated, approved, status_eq}
use careerpilot.Application.Types
use careerpilot.Application.Types.{Application, SafetyGateResult}
use careerpilot.Application.State.{transition, valid_transition}
use careerpilot.Application.Gate.{make_ready}
use careerpilot.Application.Workflow.{qualify, start_preparing, attach_resume}

-- The operations one after another, each on what the one before returned.
pub prepare : Application → Score → Version → SafetyGateResult → Result Application
prepare a score version gate = elim (qualify a score) [
  | err e ↦ err e
  | ok b ↦ elim (start_preparing b) [
    | err e ↦ err e
    | ok c ↦ elim (attach_resume c version) [ err e ↦ err e | ok d ↦ make_ready d gate ]
  ]
]

-- A DISCOVERED application comes through the workflow exactly when the score recommends APPLY, the
-- resume version is VALIDATED or APPROVED, and the gate has passed; it is then READY with that
-- version and that gate result, and nothing else of it has changed. That the version is APPROVED is
-- not asked for.
pub prepare_exact :
    (a b : Application) (score : Score) (version : Version) (gate : SafetyGateResult)
    → a.status ≡ Types.Status.discovered
    → (prepare a score version gate ≡ ok b) ↔ (
        (score.recommendation ≡ apply)
        × ((version.status ≡ validated) ⊎ (version.status ≡ approved))
        × (gate.passed ≡ true)
        × (b ≡ record a {
          status = Types.Status.ready;
          resume_version_id = version.id;
          safety_gate = some gate;
        }))
unfolding prepare qualify start_preparing attach_resume make_ready transition valid_transition
prepare_exact a b score version gate discovered = ground arith
