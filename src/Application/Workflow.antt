-- ===== src/Application/Workflow.antt =====
-- internal/application/workflow.go: from a scored job to an application awaiting review.
pub mod Path
use careerpilot.Base.{
  String, ◌<>◌, not, ◌&&◌, none, [], if◌then◌else◌, nat_eq, ◌==◌, string_eq, int_eq, message,
  Result, err, Time,
}
use careerpilot.Job.Types.{Job, Score, recommendation_eq, apply, recommendation_text}
use careerpilot.Resume.Version.{
  VariantType, variant_fde, variant_software_engineer, Version, validated, approved, status_eq,
}
use careerpilot.Resume.Version
use careerpilot.Application.Types.{Application, discovered, qualified, preparing, review}
use careerpilot.Application.State.{transition}

-- The id and the two readings of the clock are arguments, in the order of the code's calls.
unfoldable pub from_job : String → Time → Time → Job → String → Application
from_job id created updated j profile_id = record {
  id = id;
  job_id = j.id;
  profile_id = profile_id;
  resume_version_id = "";
  answers = [];
  status = discovered;
  safety_gate = none;
  duplicate_of_id = "";
  created_at = created;
  updated_at = updated;
}

unfoldable pub qualify : Application → Score → Result Application
qualify a score =
    if not (score.recommendation == apply)
    then err (
        message (
          "application: cannot qualify job with recommendation "
          <> recommendation_text score.recommendation))
    else transition a qualified

unfoldable pub select_resume_variant : String → VariantType
select_resume_variant recommended =
    if recommended == Version.variant_text variant_fde
    then variant_fde
    else variant_software_engineer

unfoldable pub start_preparing : Application → Result Application
start_preparing a = transition a preparing

unfoldable pub attach_resume : Application → Version → Result Application
attach_resume a version =
    if not (version.status == validated) && not (version.status == approved)
    then err (
        message (
          "application: resume version must be VALIDATED or APPROVED, got "
          <> Version.status_text version.status))
    else transition (record a { resume_version_id = version.id }) review
