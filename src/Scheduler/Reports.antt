-- ===== src/Scheduler/Reports.antt =====
-- internal/scheduler/health.go and audit_report.go.
pub mod Totals
use careerpilot.Base.{
  ℕ, ◌+◌, String, Option, none, some, List, [], ◌∷◌, nat_eq, string_eq, int_eq, Error, error_text,
  Time,
}
use careerpilot.Base.Dict.{Dict, lookup, insert}
use careerpilot.Scheduler.Retry.{
  TaskType, task_type_eq, RunStatus, succeeded, failed, dead_letter, skipped, Run,
}

pub data HealthStatus : Type 0 where
  healthy unhealthy : HealthStatus  -- `HealthOK` and `HealthUnhealthy`

-- A check, with what its `CheckFn` returns when it is run.
pub record HealthCheck : Type 0 where
  pub name : String
  pub answer : Option Error

pub record HealthReport : Type 0 where
  pub status : HealthStatus
  pub checks : Dict String String
  pub checked_at : Time

-- The body of the loop.
abbrev observe : HealthReport → HealthCheck → HealthReport
observe report c = elim c.answer [
  | some e ↦ record report {
    checks = insert c.name (error_text e) report.checks;
    status = unhealthy;
  }
  | none ↦ record report { checks = insert c.name "ok" report.checks }
]

unfoldable pub observe_all : HealthReport → List HealthCheck → HealthReport
unfolding insert
observe_all report [] = report
observe_all report (c ∷ checks) = observe_all (observe report c) checks

-- `HealthChecker.Run`.
unfoldable pub check_health : Time → List HealthCheck → HealthReport
unfolding observe_all
check_health now checks =
    observe_all (record { status = healthy; checks = []; checked_at = now }) checks

pub record TaskSummary : Type 0 where
  pub succeeded : ℕ
  pub failed : ℕ
  pub dead_letter : ℕ
  pub skipped : ℕ

abbrev pub no_summary : TaskSummary
no_summary = record { succeeded = 0; failed = 0; dead_letter = 0; skipped = 0 }

pub record AuditReport : Type 0 where
  pub since : Time
  pub until : Time
  pub by_task : Dict TaskType TaskSummary

-- `m[task]`, which is the zero summary where there is none.
unfoldable pub summary_of : Dict TaskType TaskSummary → TaskType → TaskSummary
unfolding lookup
summary_of d task = elim (lookup task d) [ some s ↦ s | none ↦ no_summary ]

-- The switch.
abbrev pub tally : TaskSummary → RunStatus → TaskSummary
tally s succeeded = record s { succeeded = s.succeeded + 1 }
tally s failed = record s { failed = s.failed + 1 }
tally s dead_letter = record s { dead_letter = s.dead_letter + 1 }
tally s skipped = record s { skipped = s.skipped + 1 }

unfoldable pub add_runs : Dict TaskType TaskSummary → List Run → Dict TaskType TaskSummary
unfolding summary_of insert
add_runs d [] = d
add_runs d (r ∷ runs) = add_runs (insert r.task (tally (summary_of d r.task) r.status) d) runs

unfoldable pub build_audit_report : Time → Time → List Run → AuditReport
unfolding add_runs
build_audit_report since until runs = record {
  since = since;
  until = until;
  by_task = add_runs [] runs;
}
