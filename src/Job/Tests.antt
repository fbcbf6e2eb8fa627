-- ===== src/Job/Tests.antt =====
-- The operations of internal/job on one posting, with stores that keep what is saved in them.
use careerpilot.Base.{
  ◌≤◌, ◌≡◌, refl, ap, ◌≢◌, ◌↔◌, ◌⊎◌, inl, inr, true, false, none, some, List, [], ◌∷◌, arith,
  nat_eq, ◌==◌, string_eq, Bool-cases, any, pos, int_eq, ◌≤ℤ◌, ok, start_of_day,
}
use careerpilot.Job.Types
use careerpilot.Job.Types.{Job, Call, apply, review, reject}
use careerpilot.Job.Normalize.{normalize}
use careerpilot.Job.Dedup.Laws.{Remembers}
use careerpilot.Job.Scoring.{apply_triage}
use careerpilot.Job.Pipeline.Laws.{Adds, process-Adds}
use careerpilot.Job.Pipeline.{Env, process}
use careerpilot.Job.Scoring.Laws.{apply_triage_exact}
use careerpilot.Job.Memory.{raw, sha, find_saved, store, triage_output, env}
use careerpilot.Job.Pipeline.Daily.{CountsDeep, Day, deep_evaluations, daily_evaluations_hold}

find_saved_lem :
    (h : List Call) (k : Job)
    → any (Types.is_save_of k.normalized_hash) h ≡ true
    → (x : Job) × (find_saved h k.normalized_hash ≡ some x)
unfolding find_saved
find_saved_lem [] k saved = absurd (ground arith)
find_saved_lem (Types.save_job j ∷ h) k saved =
    elim (Bool-cases (j.normalized_hash == k.normalized_hash)) [
      | inl same ↦ (j, ground arith)
      | inr other ↦ let (x, found) = find_saved_lem h k (ground arith) in (x, ground arith)
    ]
find_saved_lem (_ ∷ h) k saved = find_saved_lem h k saved

store-Remembers : Remembers store
unfolding store
store-Remembers = record {
  source_answers = λ h source id. (none, refl);
  hash_found = λ h k saved. let (x, found) = find_saved_lem h k saved in (x, ap ok found);
}

apply_triage_exact_example :
    let s = apply_triage triage_output in
    ((s.recommendation ≡ apply) ↔ (
      (triage_output.hard_fail ≡ false)
      × ((triage_output.recommendation ≡ "apply") ⊎ (triage_output.recommendation ≡ "APPLY"))))
    × ((s.recommendation ≡ apply) ⊎ (s.recommendation ≡ review) ⊎ (s.recommendation ≡ reject))
    × (s.reasons ≢ [])
    × (pos 0 ≤ℤ s.value)
    × (s.value ≤ℤ pos 100)
apply_triage_exact_example = apply_triage_exact triage_output

abbrev posting : Job
posting = normalize sha "greenhouse" raw

process-Adds_example : Adds 2 [] (process (env (pos 100)) posting []).1
process-Adds_example = process-Adds (env (pos 100)) posting []

-- An evaluation store that counts what it was given, under a triage that recommends to apply.
abbrev counting : Env
counting = record (env (pos 100)) {
  decode_triage = λ text. ok (record triage_output { recommendation = "apply" });
  count_deep_evaluations_since = λ h since. ok (pos (deep_evaluations h));
}

counts : CountsDeep counting (start_of_day (pos 0))
counts h n counted = ground arith

daily_evaluations_hold_example : deep_evaluations (process counting posting []).1 ≤ 30
unfolding env
daily_evaluations_hold_example =
    daily_evaluations_hold counting (start_of_day (pos 0)) (λ h. refl) counts 30 refl
      (Day.processed posting Day.morning)
