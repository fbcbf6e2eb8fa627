-- ===== src/Application/Records.antt =====
-- internal/application/audit.go and duplicate.go: the application store and the audit trail.
use careerpilot.Base.{
  String, Option, List, Error, wrap, Result, ok, err, M, ◌>>=◌, pure, call, on_ok, Time,
}
use careerpilot.Application.Types.{Application}

pub data EventType : Type 0 where
  event_created event_qualified event_preparing_started event_resume_attached : EventType
  event_review_required event_ready_for_submit event_duplicate_blocked : EventType
  event_cancelled event_submitted : EventType

pub record Event : Type 0 where
  pub id : String
  pub application_id : String
  pub job_id : String
  pub kind : EventType  -- the field `Type`
  pub detail : String
  pub created_at : Time

pub data Call : Type 0 where
  new_id read_clock : Call
  append_event : Event → Call
  find_by_job_id : String → Call

pub record Env : Type 0 where
  pub new_id : List Call → String
  pub now : List Call → Time
  pub append_event : List Call → Event → Option Error
  pub find_by_job_id : List Call → String → Result (Option Application)

unfoldable pub record_event : Env → Application → EventType → String → M Call (Option Error)
record_event env a event_type detail = do
  id ← call new_id env.new_id
  now ← call read_clock env.now
  let e : Event = record {
    id = id;
    application_id = a.id;
    job_id = a.job_id;
    kind = event_type;
    detail = detail;
    created_at = now;
  }
  call (append_event e) (λ h. env.append_event h e)

-- `(existing, isDuplicate, err)`, where an `existing` that is no duplicate is not read.
unfoldable pub check_duplicate : Env → String → M Call (Result (Option Application))
check_duplicate env job_id = do
  found ← call (find_by_job_id job_id) (λ h. env.find_by_job_id h job_id)
  on_ok found (λ e. err (wrap "application: check duplicate" e)) λ o. pure (ok o)
