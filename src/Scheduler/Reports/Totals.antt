-- ===== src/Scheduler/Reports/Totals.antt =====
-- What the health and audit reports add up to.
use careerpilot.Base.{
  ℕ, ◌+◌, ◌≡◌, ◌∙◌, ◌↔◌, inl, inr, ◌&&◌, none, List, [], ◌∷◌, arith, if◌then◌else◌, nat_eq, ◌==◌,
  string_eq, Option-cases, count_if, All, int_eq, error_text, Time,
}
use careerpilot.Base.Dict.{Dict, lookup, insert, lookup-insert}
use careerpilot.Scheduler.Retry
use careerpilot.Scheduler.Retry.{TaskType, task_type_eq, RunStatus, run_status_eq, Run}
use careerpilot.Scheduler.Reports.{
  HealthReport, HealthCheck, healthy, unhealthy, observe_all, check_health, TaskSummary, summary_of,
  tally, add_runs, build_audit_report,
}

observe_all-healthy :
    (report : HealthReport) (checks : List HealthCheck)
    → ((observe_all report checks).status ≡ healthy)
      ↔ ((report.status ≡ healthy) × All (λ c. c.answer ≡ none) checks)
unfolding observe_all
observe_all-healthy report [] = ground arith
observe_all-healthy report (c ∷ checks) = elim (Option-cases c.answer) [
  | inl fine ↦ ground (
    arith,
    observe_all-healthy (record report { checks = insert c.name "ok" report.checks }) checks,
  )
  | inr (e, failed) ↦ ground (
    arith,
    observe_all-healthy
        (record report { checks = insert c.name (error_text e) report.checks; status = unhealthy })
        checks,
  )
]

-- The health report is ok exactly when every check passed.
pub check_health_exact :
    (now : Time) (checks : List HealthCheck)
    → ((check_health now checks).status ≡ healthy) ↔ All (λ c. c.answer ≡ none) checks
unfolding check_health
check_health_exact now checks =
    ground (
      arith,
      observe_all-healthy (record { status = healthy; checks = []; checked_at = now }) checks,
    )

-- The runs of a task with a status.
pub runs_with : TaskType → RunStatus → List Run → ℕ
runs_with task status runs = count_if (λ r. (r.task == task) && (r.status == status)) runs

-- A summary and the counts of more runs.
abbrev plus : TaskSummary → TaskType → List Run → TaskSummary
plus s task runs = record {
  succeeded = s.succeeded + runs_with task Retry.succeeded runs;
  failed = s.failed + runs_with task Retry.failed runs;
  dead_letter = s.dead_letter + runs_with task Retry.dead_letter runs;
  skipped = s.skipped + runs_with task Retry.skipped runs;
}

insert-summary :
    (task : TaskType) (d : Dict TaskType TaskSummary) (t : TaskType) (s : TaskSummary)
    → summary_of (insert t s d) task ≡ (if t == task then s else summary_of d task)
unfolding summary_of
insert-summary task d t s = ground (arith, lookup-insert task t s d)

-- One more run.
add_run-summary :
    (task : TaskType) (d : Dict TaskType TaskSummary) (r : Run) (runs : List Run)
    → plus (summary_of (insert r.task (tally (summary_of d r.task) r.status) d) task) task runs
      ≡ plus (summary_of d task) task (r ∷ runs)
unfolding runs_with run_status_eq
add_run-summary task d r runs =
    ground (arith, insert-summary task d r.task (tally (summary_of d r.task) r.status))

add_runs-summary :
    (task : TaskType) (d : Dict TaskType TaskSummary) (runs : List Run)
    → summary_of (add_runs d runs) task ≡ plus (summary_of d task) task runs
unfolding add_runs
add_runs-summary task d [] = unfold runs_with in ground arith
add_runs-summary task d (r ∷ runs) =
    add_runs-summary task (insert r.task (tally (summary_of d r.task) r.status) d) runs
    ∙ add_run-summary task d r runs

-- For every task the audit report counts exactly its runs, by their status.
pub build_audit_report_exact :
    (since until : Time) (runs : List Run) (task : TaskType)
    → let s = summary_of (build_audit_report since until runs).by_task task in
      (s.succeeded ≡ runs_with task Retry.succeeded runs)
      × (s.failed ≡ runs_with task Retry.failed runs)
      × (s.dead_letter ≡ runs_with task Retry.dead_letter runs)
      × (s.skipped ≡ runs_with task Retry.skipped runs)
unfolding build_audit_report summary_of lookup
build_audit_report_exact since until runs task = ground (arith, add_runs-summary task [] runs)
