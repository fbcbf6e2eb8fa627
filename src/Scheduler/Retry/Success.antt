-- ===== src/Scheduler/Retry/Success.antt =====
-- Execute stops at the first attempt that succeeds.
use careerpilot.Base.{
  ℕ, zero, suc, ◌+◌, ◌≤◌, ◌<◌, String, ◌≡◌, refl, ◌≢◌, ◌⊎◌, inl, inr, Option, none, some, List, ◌∷◌,
  arith, ℤ, pos_part, Error, M, Time,
}
use careerpilot.Scheduler.Retry.{
  succeeded, TaskType, Run, Call, read_clock, Env, finished, after_attempt, execute_from, execute,
}
use careerpilot.Scheduler.Retry.Bounded.{decide-cases}

le_cases : (a b : ℕ) → a ≤ b → (a < b) ⊎ (a ≡ b)
le_cases a b le = ground arith

record Succeeds (n : ℕ) (x : Option Run × List Call) : Type 0 where
  run : Run
  returned : x.0 ≡ some run
  status : run.status ≡ succeeded
  attempt : run.attempt ≡ n

module _ (env : Env) (max_retries : ℤ) (task : TaskType) where
  finished-Succeeds :
      (n : ℕ) (detail : String) (start finish : Time) (h : List Call)
      → Succeeds n (finished env max_retries task succeeded n detail start finish h)
  unfolding finished
  finished-Succeeds n detail start finish h = record {
    run = _;
    returned = refl;
    status = refl;
    attempt = refl;
  }

  -- The first success is at `suc n`.
  module _ (n : ℕ) (allowed : n ≤ pos_part max_retries)
      (fails_before : (h : List Call) (m : ℕ) → m < n → env.fn h (suc m) ≢ none)
      (succeeds_at : (h : List Call) → env.fn h (suc n) ≡ none) where
    after_attempt-Succeeds :
        (made : ℕ) (start finish : Time) (o : Option Error) (rest : M Call (Option Run))
        (h : List Call)
        → made ≤ n
        → ((made < n) × (o ≢ none)) ⊎ ((made ≡ n) × (o ≡ none))
        → (made < n → Succeeds (suc n) (rest h))
        → Succeeds (suc n) (after_attempt env max_retries task (suc made) start finish o rest h)
    unfolding after_attempt
    after_attempt-Succeeds made start finish none rest h up_to (inl (early, fails)) onward =
        absurd (fails refl)
    after_attempt-Succeeds made start finish none rest h up_to (inr (now, e)) onward =
        rw now (finished-Succeeds (suc n) "" start finish h)
    after_attempt-Succeeds made start finish (some e) rest h up_to (inr (now, fine)) onward =
        absurd (ground arith)
    after_attempt-Succeeds made start finish (some e) rest h up_to (inl (early, fails)) onward =
        elim (decide-cases max_retries made) [
          | inl (again, below) ↦ rw (after_attempt, again) (onward early)
          | inr (over, above) ↦ absurd (omega arith)
        ]

    attempt-cases :
        (made : ℕ) (h : List Call)
        → made ≤ n
        → ((made < n) × (env.fn h (suc made) ≢ none)) ⊎ ((made ≡ n) × (env.fn h (suc made) ≡ none))
    attempt-cases made h up_to = elim (le_cases made n up_to) [
      | inl early ↦ inl (early, fails_before h made early)
      | inr now ↦ inr (now, rw now (succeeds_at h))
    ]

    execute_from-Succeeds :
        (fuel made : ℕ) (h : List Call)
        → fuel + made ≡ pos_part max_retries
        → made ≤ n
        → Succeeds (suc n) (execute_from env max_retries task (suc fuel) made h)
    unfolding execute_from
    execute_from-Succeeds zero made h enough up_to =
        after_attempt-Succeeds made _ _ _ _ _ up_to (attempt-cases made (read_clock ∷ h) up_to)
          λ early. absurd (omega arith)
    execute_from-Succeeds (suc fuel) made h enough up_to =
        after_attempt-Succeeds made _ _ _ _ _ up_to (attempt-cases made (read_clock ∷ h) up_to)
          λ early. execute_from-Succeeds fuel (suc made) _ (omega arith) early

    -- If every attempt before the n-th one fails, the n-th one succeeds and n is at most
    -- MaxRetries + 1, then Execute returns a run that SUCCEEDED at attempt n.
    pub execute_first_success :
        (h : List Call)
        → (run : Run) × ((execute env max_retries task h).0 ≡ some run)
          × (run.status ≡ succeeded)
          × (run.attempt ≡ suc n)
    unfolding execute
    execute_first_success h =
        let s = execute_from-Succeeds (pos_part max_retries) 0 h (omega arith) (omega arith) in
        (s.run, s.returned, s.status, s.attempt)
