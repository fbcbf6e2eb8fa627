-- ===== src/Scheduler/Retry/Bounded.antt =====
-- Execute ends within its bound, and what its run record says is what happened.
use careerpilot.Base.{
  ℕ, zero, suc, ◌+◌, ◌≤◌, ◌<◌, String, ◌≡◌, refl, ◌⊎◌, inl, inr, Bool, true, false, Option, none,
  some, List, ◌∷◌, arith, count_if, ℤ, pos, negsuc, pos_part, Error, M, Time,
}
use careerpilot.Scheduler.Retry.{
  succeeded, dead_letter, retry, give_up, TaskType, Run, RunStatus, Call, run_attempt, read_clock,
  Env, decide, finished, after_attempt, execute_from, execute,
}

-- The attempts on record.
abbrev is_attempt : Call → Bool
is_attempt (run_attempt n) = true
is_attempt _ = false

abbrev pub attempts : List Call → ℕ
attempts h = count_if is_attempt h

-- A run that ended after so many further attempts, of at most so many.
record EndsWithin (bound made : ℕ) (h : List Call) (x : Option Run × List Call) : Type 0 where
  run : Run
  returned : x.0 ≡ some run
  counted : made + attempts x.1 ≡ attempts h + run.attempt
  later : made < run.attempt
  bounded : run.attempt ≤ bound
  verdict : (run.status ≡ succeeded) ⊎ ((run.status ≡ dead_letter) × (run.attempt ≡ bound))

pub decide-cases :
    (max_retries : ℤ) (n : ℕ)
    → ((decide max_retries (suc n) ≡ retry) × (suc n ≤ pos_part max_retries))
      ⊎ ((decide max_retries (suc n) ≡ give_up) × (pos_part max_retries ≤ n))
unfolding decide
decide-cases (pos m) n = ground arith
decide-cases (negsuc m) n = ground arith

earlier :
    {bound : ℕ} (made : ℕ) (h : List Call) {x : Option Run × List Call}
    → EndsWithin bound (suc made) (read_clock ∷ run_attempt (suc made) ∷ read_clock ∷ h) x
    → EndsWithin bound made h x
earlier made h e = record {
  run = e.run;
  returned = e.returned;
  counted = omega (arith, e.counted);
  later = omega (arith, e.later);
  bounded = e.bounded;
  verdict = e.verdict;
}

module _ (env : Env) (max_retries : ℤ) (task : TaskType) where
  -- The history of one round.
  abbrev round : ℕ → List Call → List Call
  round made h = read_clock ∷ run_attempt (suc made) ∷ read_clock ∷ h

  finished-EndsWithin :
      (status : RunStatus) (made : ℕ) (detail : String) (start finish : Time) (h : List Call)
      → suc made ≤ suc (pos_part max_retries)
      → (status ≡ succeeded) ⊎ ((status ≡ dead_letter) × (suc made ≡ suc (pos_part max_retries)))
      → EndsWithin
          (suc (pos_part max_retries))
          made
          h
          (finished env max_retries task status (suc made) detail start finish (round made h))
  unfolding finished
  finished-EndsWithin status made detail start finish h bounded verdict = record {
    run = record {
      id = env.new_id (round made h);
      task = task;
      status = status;
      attempt = suc made;
      detail = detail;
      started_at = start;
      finished_at = finish;
    };
    returned = refl;
    counted = omega arith;
    later = omega arith;
    bounded = bounded;
    verdict = verdict;
  }

  after_attempt-EndsWithin :
      (made : ℕ) (start finish : Time) (o : Option Error) (rest : M Call (Option Run))
      (h : List Call)
      → suc made ≤ suc (pos_part max_retries)
      → (suc made ≤ pos_part max_retries
          → EndsWithin (suc (pos_part max_retries)) made h (rest (round made h)))
      → EndsWithin
          (suc (pos_part max_retries))
          made
          h
          (after_attempt env max_retries task (suc made) start finish o rest (round made h))
  unfolding after_attempt
  after_attempt-EndsWithin made start finish none rest h bounded onward =
      finished-EndsWithin succeeded made "" start finish h bounded (inl refl)
  after_attempt-EndsWithin made start finish (some e) rest h bounded onward =
      elim (decide-cases max_retries made) [
        | inl (again, below) ↦ rw (after_attempt, again) (onward below)
        | inr (over, above) ↦
            rw (after_attempt, over)
              (finished-EndsWithin dead_letter made _ start finish h bounded
                (inr (refl, omega (arith, above))))
      ]

  execute_from-EndsWithin :
      (fuel made : ℕ) (h : List Call)
      → fuel + made ≡ pos_part max_retries
      → EndsWithin
          (suc (pos_part max_retries))
          made
          h
          (execute_from env max_retries task (suc fuel) made h)
  unfolding execute_from
  execute_from-EndsWithin zero made h enough =
      after_attempt-EndsWithin made _ _ _ _ h (omega arith) λ more. absurd (omega arith)
  execute_from-EndsWithin (suc fuel) made h enough =
      after_attempt-EndsWithin made _ _ _ _ h (omega arith) λ more.
        earlier made h (execute_from-EndsWithin fuel (suc made) (round made h) (omega arith))

  -- Execute always returns a run: after at least one attempt and at most MaxRetries + 1 (one if
  -- MaxRetries is negative), as many as the run says, in SUCCEEDED or, once all attempts are used
  -- up, in DEAD_LETTER.
  pub execute_bounded :
      (h : List Call)
      → (run : Run) × ((execute env max_retries task h).0 ≡ some run)
        × (attempts (execute env max_retries task h).1 ≡ attempts h + run.attempt)
        × (1 ≤ run.attempt)
        × (run.attempt ≤ suc (pos_part max_retries))
        × ((run.status ≡ succeeded)
            ⊎ ((run.status ≡ dead_letter) × (run.attempt ≡ suc (pos_part max_retries))))
  unfolding execute
  execute_bounded h =
      let e = execute_from-EndsWithin (pos_part max_retries) 0 h (omega arith) in
      (e.run, e.returned, omega (arith, e.counted), e.later, e.bounded, e.verdict)
