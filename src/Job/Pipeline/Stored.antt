-- ===== src/Job/Pipeline/Stored.antt =====
-- What the evaluation store has after a stage that answered with a score.
use careerpilot.Base.{
  String, ◌≡◌, refl, ◌∙◌, inl, inr, Bool, false, ◌&&◌, none, some, List, [], ◌∷◌, ◌++◌, map, arith,
  nat_eq, ◌==◌, string_eq, Option-cases, int_eq, on_ok_rule, ok, Result-cases,
}
use careerpilot.ModelProvider.Recorder
use careerpilot.Job.Types
use careerpilot.Job.Types.{recommendation_eq, Job, Score, Evaluation, Call, model_call}
use careerpilot.Job.Scoring.{apply_triage, apply_evaluation}
use careerpilot.Job.Pipeline.{
  Env, request, save_score, triage, evaluate, run_triage, triage_anew, evaluate_anew,
  run_deep_evaluation,
}

-- A call that saves an evaluation of this job at this stage.
abbrev pub saves : String → String → Call → Bool
saves id stage (Types.save_evaluation e) = e.job_id == id && e.stage == stage
saves id stage _ = false

-- A saved deep evaluation is none of triage.
deep-elsewhere :
    (e : Evaluation) (id : String)
    → e.stage ≡ "deep_evaluation"
    → saves id "triage" (Types.save_evaluation e) ≡ false
unfolding string_eq
deep-elsewhere e id deep =
    let differ : ◌==◌ {A = String} "deep_evaluation" "triage" ≡ false = refl in
    rw deep (ground arith)

-- The evaluation store finds what it has just saved, and no other call changes what it finds.
pub record Keeps (env : Env) : Type 0 where
  pub finds_saved :
      (h : List Call) (e : Evaluation)
      → env.save_evaluation h e ≡ none
      → env.get_evaluation (Types.save_evaluation e ∷ h) e.job_id e.stage ≡ ok (some e)
  pub unchanged :
      (c : Call) (h : List Call) (id stage : String)
      → saves id stage c ≡ false
      → env.get_evaluation (c ∷ h) id stage ≡ env.get_evaluation h id stage

module _ (env : Env) (k : Keeps env) where
  -- The store has this score of a job at a stage.
  pub record Stored (id stage : String) (s : Score) (h : List Call) : Type 0 where
    pub evaluation : Evaluation
    pub found : env.get_evaluation h id stage ≡ ok (some evaluation)
    pub same : evaluation.score ≡ s

  pub Stored-past :
      (c : Call) {id stage : String} {s : Score} (h : List Call)
      → saves id stage c ≡ false
      → Stored id stage s h
      → Stored id stage s (c ∷ h)
  Stored-past c {id} {stage} h other x = record {
    evaluation = x.evaluation;
    found = k.unchanged c h id stage other ∙ x.found;
    same = x.same;
  }

  nest-Stored :
      (own : List Recorder.Call) {id stage : String} {s : Score} (h : List Call)
      → Stored id stage s h
      → Stored id stage s (map model_call own ++ h)
  nest-Stored [] h x = x
  nest-Stored (c ∷ own) h x = Stored-past (model_call c) _ refl (nest-Stored own h x)

  -- A score that was saved is found again.
  save_score-Stored :
      (id stage failed : String) (score : Score) (h : List Call) {s : Score}
      → (save_score env id stage score failed h).0 ≡ ok s
      → Stored id stage s (save_score env id stage score failed h).1
  unfolding save_score
  save_score-Stored id stage failed score h done =
      let e : Evaluation = record {
        id = env.new_id h;
        job_id = id;
        stage = stage;
        score = score;
        created_at = env.now (Types.new_id ∷ h);
      } in
      let h' = Types.read_clock ∷ Types.new_id ∷ h in
      record { evaluation = e; found = k.finds_saved h' e (ground arith); same = ground arith }

  triage_anew-Stored :
      (j : Job) (h : List Call) {s : Score}
      → (triage_anew env j h).0 ≡ ok s
      → Stored j.id "triage" s (triage_anew env j h).1
  unfolding triage_anew
  triage_anew-Stored j h done = elim (Result-cases (triage env j.id (env.triage_prompt j) h).0) [
    | inl (out, e) ↦
        let h' = (triage env j.id (env.triage_prompt j) h).1 in
        let x =
          save_score-Stored j.id "triage" "job: save triage evaluation" (apply_triage out) h'
            (ground arith) in
        rw e x
    | inr (out, e) ↦ absurd (ground arith)
  ]

  evaluate_anew-Stored :
      (j : Job) (h : List Call) {s : Score}
      → (evaluate_anew env j h).0 ≡ ok s
      → Stored j.id "deep_evaluation" s (evaluate_anew env j h).1
  unfolding evaluate_anew
  evaluate_anew-Stored j h done =
      elim (Result-cases (evaluate env j.id (env.evaluation_prompt j) h).0) [
        | inl (out, e) ↦
            let h' = (evaluate env j.id (env.evaluation_prompt j) h).1 in
            let x =
              save_score-Stored j.id "deep_evaluation" "job: save deep evaluation"
                (apply_evaluation out) h' (ground arith) in
            rw e x
        | inr (out, e) ↦ absurd (ground arith)
      ]

  pub run_triage-Stored :
      (j : Job) (h : List Call) {s : Score}
      → (run_triage env j h).0 ≡ ok s
      → Stored j.id "triage" s (run_triage env j h).1
  unfolding run_triage
  run_triage-Stored j h {s} done =
      let h' = Types.get_evaluation j.id "triage" ∷ h in
      elim (Result-cases (env.get_evaluation h j.id "triage")) [
        | inr (x, e) ↦ absurd (ground arith)
        | inl (o, e) ↦ elim (Option-cases o) [
          | inr (x, stored) ↦
              rw (e, stored)
                (Stored-past (Types.get_evaluation j.id "triage") h refl
                  (record { evaluation = x; found = ground arith; same = ground arith }))
          | inl missing ↦
              let anew : (triage_anew env j h').0 ≡ ok s = ground arith in
              rw (e, missing) (triage_anew-Stored j h' anew)
        ]
      ]

  pub run_deep_evaluation-Stored :
      (j : Job) (h : List Call) {s : Score}
      → (run_deep_evaluation env j h).0 ≡ ok s
      → Stored j.id "deep_evaluation" s (run_deep_evaluation env j h).1
  unfolding run_deep_evaluation
  run_deep_evaluation-Stored j h {s} done =
      let h' = Types.get_evaluation j.id "deep_evaluation" ∷ h in
      elim (Result-cases (env.get_evaluation h j.id "deep_evaluation")) [
        | inr (x, e) ↦ absurd (ground arith)
        | inl (o, e) ↦ elim (Option-cases o) [
          | inr (x, stored) ↦
              rw (e, stored)
                (Stored-past (Types.get_evaluation j.id "deep_evaluation") h refl
                  (record { evaluation = x; found = ground arith; same = ground arith }))
          | inl missing ↦
              let anew : (evaluate_anew env j h').0 ≡ ok s = ground arith in
              rw (e, missing) (evaluate_anew-Stored j h' anew)
        ]
      ]

  save_deep-keeps_triage :
      (id failed : String) (score : Score) (h : List Call) {s : Score}
      → Stored id "triage" s h
      → Stored id "triage" s (save_score env id "deep_evaluation" score failed h).1
  unfolding save_score
  save_deep-keeps_triage id failed score h x =
      let e : Evaluation = record {
        id = env.new_id h;
        job_id = id;
        stage = "deep_evaluation";
        score = score;
        created_at = env.now (Types.new_id ∷ h);
      } in
      Stored-past (Types.save_evaluation e) _ (deep-elsewhere e id refl)
        (Stored-past Types.read_clock _ refl (Stored-past Types.new_id h refl x))

  -- The deep stage leaves the score of triage where it is.
  pub run_deep_evaluation-keeps_triage :
      (j : Job) (h : List Call) {s : Score}
      → Stored j.id "triage" s h
      → Stored j.id "triage" s (run_deep_evaluation env j h).1
  unfolding run_deep_evaluation evaluate_anew evaluate
  run_deep_evaluation-keeps_triage j h {s} x =
      let asked = Types.get_evaluation j.id "deep_evaluation" ∷ h in
      let kept = Stored-past (Types.get_evaluation j.id "deep_evaluation") h refl x in
      on_ok_rule (λ x. Stored j.id "triage" s x.1) (env.get_evaluation h j.id "deep_evaluation") _ _
        asked (λ e. kept)
        λ found. elim (Option-cases found) [
          | inr (e, stored) ↦ rw stored kept
          | inl missing ↦
              let own =
                (Recorder.generate (env.evaluation_model asked) "job_deep_evaluation"
                  (request j.id (env.evaluation_prompt j)) []).1 in
              let (out, h') = evaluate env j.id (env.evaluation_prompt j) asked in
              let kept' = nest-Stored own asked kept in
              rw missing (
                on_ok_rule (λ x. Stored j.id "triage" s x.1) out _ _ h' (λ e. kept')
                  λ o. save_deep-keeps_triage j.id _ _ h' kept')
        ]
