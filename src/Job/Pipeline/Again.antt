-- ===== src/Job/Pipeline/Again.antt =====
-- What a second run over a job makes of the first one.
use careerpilot.Base.{
  lt_or_le, ◌≡◌, refl, ◌≢◌, ◌⊎◌, inl, inr, false, List, [], ◌∷◌, ◌++◌, arith, nat_eq, ◌==◌,
  string_eq, Bool-cases, All, ℤ, int_eq, ◌≤ℤ◌, ◌<ℤ◌, leb_ℤ, ok, Result-cases, Time, start_of_day,
}
use careerpilot.Job.Types
use careerpilot.Job.Types.{apply, recommendation_eq, Job, Score, Call}
use careerpilot.Job.Pipeline.Laws.{generates}
use careerpilot.Job.Pipeline.{Env, run_triage, run_deep_evaluation, deepen, process}
use careerpilot.Job.Pipeline.Stored.{
  saves, Keeps, Stored, Stored-past, run_triage-Stored, run_deep_evaluation-Stored,
  run_deep_evaluation-keeps_triage,
}

-- The state behind the count that every run starts with.
abbrev pub counted : Env → List Call → List Call
counted env h = Types.count_discovered_since (start_of_day (env.now h)) ∷ Types.read_clock ∷ h

module _ (env : Env) (k : Keeps env) where
  -- What a run that answered with a score, and was not held back by the limit of deep evaluations,
  -- has left in the store.
  pub record Done (j : Job) (s : Score) (h : List Call) : Type 0 where
    pub triaged : Score
    pub stored : Stored env k j.id "triage" triaged h
    pub deepened :
        ((triaged.recommendation ≢ apply) × (triaged ≡ s))
        ⊎ ((triaged.recommendation ≡ apply) × Stored env k j.id "deep_evaluation" s h)

  Done-past :
      (j : Job) (s : Score) (later h : List Call)
      → All (λ c. (saves j.id "triage" c ≡ false) × (saves j.id "deep_evaluation" c ≡ false)) later
      → Done j s h
      → Done j s (later ++ h)
  Done-past j s [] h elsewhere d = d
  Done-past j s (c ∷ later) h ((not_triage, not_deep), elsewhere) d =
      let d' = Done-past j s later h elsewhere d in
      record {
        triaged = d'.triaged;
        stored = Stored-past env k c _ not_triage d'.stored;
        deepened = elim d'.deepened [
          | inl short ↦ inl short
          | inr (good, deep) ↦ inr (good, Stored-past env k c _ not_deep deep)
        ];
      }

  -- A job that triage passes on is left with both scores.
  deepen-Done :
      (start : Time) (j : Job) (triaged : Score) (h : List Call) {s : Score} {m : ℤ}
      → Stored env k j.id "triage" triaged h
      → triaged.recommendation ≡ apply
      → env.count_deep_evaluations_since h start ≡ ok m
      → m <ℤ env.limits.deep_evaluations_per_day
      → (deepen env start j triaged h).0 ≡ ok s
      → Done j s (deepen env start j triaged h).1
  unfolding deepen
  deepen-Done start j triaged h {s} {m} stored good deep_count room done =
      let not_full : leb_ℤ env.limits.deep_evaluations_per_day m ≡ false = ground arith in
      let h' = Types.count_deep_evaluations_since start ∷ h in
      let deep : (run_deep_evaluation env j h').0 ≡ ok s = ground arith in
      rw (deep_count, not_full)
        (record {
          triaged = triaged;
          stored =
              run_deep_evaluation-keeps_triage env k j h'
                (Stored-past env k (Types.count_deep_evaluations_since start) h refl stored);
          deepened = inr (good, run_deep_evaluation-Stored env k j h' deep);
        })

  -- A run that answers with a score, below the limit of deep evaluations.
  process-Done :
      (j : Job) (h : List Call) {s : Score} {m : ℤ}
      → (process env j h).0 ≡ ok s
      → env.count_deep_evaluations_since
          (run_triage env j (counted env h)).1
          (start_of_day (env.now h))
        ≡ ok m
      → m <ℤ env.limits.deep_evaluations_per_day
      → Done j s (process env j h).1
  unfolding process
  process-Done j h {s} {m} done deep_count room =
      let start = start_of_day (env.now h) in
      elim (Result-cases (env.store.count_discovered_since (Types.read_clock ∷ h) start)) [
        | inr (e, failed) ↦ absurd (ground arith)
        | inl (n, n_counted) ↦ elim (Bool-cases (leb_ℤ env.limits.jobs_discovered_per_day n)) [
          | inl full ↦ absurd (ground arith)
          | inr below ↦ elim (Result-cases (run_triage env j (counted env h)).0) [
            | inr (e, failed) ↦ absurd (ground arith)
            | inl (score, triaged) ↦
                let stored = run_triage-Stored env k j (counted env h) triaged in
                let h' = (run_triage env j (counted env h)).1 in
                elim (Bool-cases (score.recommendation == apply)) [
                  | inr bad ↦
                      rw (n_counted, below, triaged, bad)
                        (record { triaged = score; stored = stored; deepened = inl (ground arith) })
                  | inl good ↦
                      rw (n_counted, below, triaged, good)
                        (deepen-Done start j score h' stored (ground arith) deep_count room
                          (ground arith))
                ]
          ]
        ]
      ]

  -- A second run calls no model; below the limit of deep evaluations it has the same answer, and
  -- from there on the score of triage.
  pub record Repeats (j : Job) (s : Score) (n : ℤ) (g : List Call) : Type 0 where
    pub no_model_call : generates (process env j g).1 ≡ generates g
    pub answer :
        ((n <ℤ env.limits.deep_evaluations_per_day) × ((process env j g).0 ≡ ok s))
        ⊎ ((env.limits.deep_evaluations_per_day ≤ℤ n)
            × ((triaged : Score) × Stored env k j.id "triage" triaged g
                × ((process env j g).0 ≡ ok triaged)))

  Done-Repeats :
      (j : Job) (g : List Call) {s : Score} {n m : ℤ}
      → Done j s g
      → env.store.count_discovered_since (Types.read_clock ∷ g) (start_of_day (env.now g)) ≡ ok n
      → n <ℤ env.limits.jobs_discovered_per_day
      → env.count_deep_evaluations_since
          (Types.get_evaluation j.id "triage" ∷ counted env g)
          (start_of_day (env.now g))
        ≡ ok m
      → Repeats j s m g
  unfolding process deepen run_triage run_deep_evaluation
  Done-Repeats j g {s} {n} {m} d n_counted below m_counted =
      let start = start_of_day (env.now g) in
      let triage_read =
        Stored-past env k (Types.count_discovered_since start) _ refl
          (Stored-past env k Types.read_clock g refl d.stored) in
      elim d.deepened [
        | inl (bad, short) ↦ record {
          no_model_call = ground (arith, triage_read.found, triage_read.same);
          answer = elim (lt_or_le m env.limits.deep_evaluations_per_day) [
            | inl room ↦ inl (room, ground (arith, triage_read.found, triage_read.same))
            | inr full ↦
                inr
                  (full, (d.triaged, d.stored, ground (arith, triage_read.found, triage_read.same)))
          ];
        }
        | inr (good, deep) ↦
            let deep_read = Stored-past env k (Types.count_deep_evaluations_since start) _ refl (
              Stored-past env k (Types.get_evaluation j.id "triage") _ refl (
                Stored-past env k (Types.count_discovered_since start) _ refl
                  (Stored-past env k Types.read_clock g refl deep))) in
            record {
              no_model_call = ground (arith, triage_read.found, triage_read.same, deep_read.found);
              answer = elim (lt_or_le m env.limits.deep_evaluations_per_day) [
                | inl room ↦ inl (
                  room,
                  ground
                      (arith, triage_read.found, triage_read.same, deep_read.found, deep_read.same),
                )
                | inr full ↦ inr (
                  full,
                  (d.triaged, d.stored, ground (arith, triage_read.found, triage_read.same)),
                )
              ];
            }
      ]

  -- Over an evaluation store that finds what it has saved and that no other call changes, let a run
  -- over a job answer with a score where the store counts fewer deep evaluations than the limit,
  -- and let any calls follow that save no evaluation of this job. Then a second run, for which the
  -- stores count fewer discovered jobs than their limit and some number of deep evaluations, calls
  -- no model; while that number is below the limit it has the same answer, and otherwise it answers
  -- with the stored score of triage, even where the first run went deeper.
  pub process_again :
      (j : Job) (h later : List Call) {s : Score} {m n m' : ℤ}
      → (process env j h).0 ≡ ok s
      → env.count_deep_evaluations_since
          (run_triage env j (counted env h)).1
          (start_of_day (env.now h))
        ≡ ok m
      → m <ℤ env.limits.deep_evaluations_per_day
      → All (λ c. (saves j.id "triage" c ≡ false) × (saves j.id "deep_evaluation" c ≡ false)) later
      → let g = later ++ (process env j h).1 in
        env.store.count_discovered_since (Types.read_clock ∷ g) (start_of_day (env.now g)) ≡ ok n
        → n <ℤ env.limits.jobs_discovered_per_day
        → env.count_deep_evaluations_since
            (Types.get_evaluation j.id "triage" ∷ counted env g)
            (start_of_day (env.now g))
          ≡ ok m'
        → Repeats j s m' g
  process_again j h later done deep_count room elsewhere n_counted below m_counted =
      let d = Done-past j _ later _ elsewhere (process-Done j h done deep_count room) in
      Done-Repeats j (later ++ (process env j h).1) d n_counted below m_counted
