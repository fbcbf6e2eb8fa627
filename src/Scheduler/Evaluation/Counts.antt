-- ===== src/Scheduler/Evaluation/Counts.antt =====
-- The counts of an evaluation run.
use careerpilot.Base.{
  ℕ, suc, ◌+◌, ◌≤◌, ◌≡◌, refl, ◌≢◌, ◌⊎◌, inl, inr, none, List, [], ◌∷◌, arith, Option-cases, length,
  on_ok_cases, ok,
}
use careerpilot.Job.Types
use careerpilot.Job.Types.{Job, Recommendation, Call}
use careerpilot.Job.Pipeline.{process}
use careerpilot.Scheduler.Evaluation.{EvaluationResult, Return, tally, Task, evaluate_all, run}

-- Every processed job is counted once more, by its recommendation.
abbrev pub Balanced : EvaluationResult → Type 0
Balanced r = r.processed ≡ r.applied + r.reviewed + r.rejected

tally-Balanced : (r : EvaluationResult) (x : Recommendation) → Balanced r → Balanced (tally r x)
unfolding tally
tally-Balanced r Types.apply b = omega arith
tally-Balanced r Types.reject b = omega arith
tally-Balanced r Types.review b = omega arith
tally-Balanced r Types.unrecognized b = omega arith

tally-processed :
    (r : EvaluationResult) (x : Recommendation) → (tally r x).processed ≡ r.processed + 1
unfolding tally
tally-processed r Types.apply = refl
tally-processed r Types.reject = refl
tally-processed r Types.review = refl
tally-processed r Types.unrecognized = refl

-- What a run over a batch of this length may return.
record Tallied (n : ℕ) (r : EvaluationResult) (x : Return) : Type 0 where
  balanced : Balanced x.0
  most : x.0.processed ≤ n + r.processed
  complete : x.1 ≡ none → x.0.processed ≡ n + r.processed

module _ (t : Task) where
  evaluate_all-Tallied :
      (jobs : List Job) (r : EvaluationResult) (h : List Call)
      → Balanced r
      → Tallied (length jobs) r (evaluate_all t jobs r h).0
  unfolding evaluate_all
  evaluate_all-Tallied [] r h b = record {
    balanced = b;
    most = omega arith;
    complete = λ _. omega arith;
  }
  evaluate_all-Tallied (j ∷ jobs) r h b =
      let (processed, h') = process t.pipeline j h in
      on_ok_cases {B = Return} (λ x. Tallied (suc (length jobs)) r x.0) processed _ _ h'
        (λ e eq. record { balanced = b; most = omega arith; complete = λ n. absurd (ground arith) })
        λ score eq.
          let r' = tally r score.recommendation in
          let c = evaluate_all-Tallied jobs r' h' (tally-Balanced r score.recommendation b) in
          let one_more = tally-processed r score.recommendation in
          record {
            balanced = c.balanced;
            most = omega (arith, c.most, one_more);
            complete = λ n. omega (arith, c.complete n, one_more);
          }

  -- An evaluation run counts each processed job under exactly one of applied, reviewed and
  -- rejected; it processes no more jobs than the listed batch has, and all of them when it ends
  -- without an error.
  pub evaluation_counts :
      (jobs : List Job) (h : List Call)
      → t.list_pending_evaluation h t.batch_size ≡ ok jobs
      → let x = (run t h).0 in
        (x.0.processed ≡ x.0.applied + x.0.reviewed + x.0.rejected)
        × (x.0.processed ≤ length jobs)
        × ((x.1 ≢ none) ⊎ (x.0.processed ≡ length jobs))
  unfolding run
  evaluation_counts jobs h listed =
      let nothing : EvaluationResult = record {
        processed = 0;
        applied = 0;
        reviewed = 0;
        rejected = 0;
      } in
      let h' = Types.list_pending_evaluation t.batch_size ∷ h in
      let c = evaluate_all-Tallied jobs nothing h' (omega arith) in
      rw listed (
        c.balanced,
        omega (arith, c.most),
        elim (Option-cases (evaluate_all t jobs nothing h').0.1) [
          | inl fine ↦ inr (omega (arith, c.complete fine))
          | inr (e, failed) ↦ inl (λ fine. absurd (ground arith))
        ],
      )
