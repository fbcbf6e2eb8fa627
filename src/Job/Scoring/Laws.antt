-- ===== src/Job/Scoring/Laws.antt =====
-- What a model's output can and cannot bring about.
use careerpilot.Base.{String, ◌≡◌, ◌≢◌, ◌↔◌, ◌⊎◌, false, [], arith, ℤ, pos, ◌≤ℤ◌}
use careerpilot.Job.Types.{apply, review, reject}
use careerpilot.Job.Scoring.{TriageOutput, EvaluationOutput, apply_triage, apply_evaluation}

-- Triage recommends to apply exactly when the hard filter passed and the model said "apply" or
-- "APPLY"; it recommends one of the three verdicts, always with a reason, and its value lies
-- between 0 and 100.
pub apply_triage_exact :
    (out : TriageOutput)
    → let s = apply_triage out in
      ((s.recommendation ≡ apply) ↔ (
        (out.hard_fail ≡ false)
        × ((out.recommendation ≡ "apply") ⊎ (out.recommendation ≡ "APPLY"))))
      × ((s.recommendation ≡ apply) ⊎ (s.recommendation ≡ review) ⊎ (s.recommendation ≡ reject))
      × (s.reasons ≢ [])
      × (pos 0 ≤ℤ s.value)
      × (s.value ≤ℤ pos 100)
unfolding apply_triage
apply_triage_exact out = ground arith

-- Deep evaluation recommends to apply exactly when the model said "apply" or "APPLY"; a REVIEW has
-- a reason, the value lies between 0 and 100, and the confidence is one of the three words.
pub apply_evaluation_exact :
    (out : EvaluationOutput)
    → let s = apply_evaluation out in
      ((s.recommendation ≡ apply)
        ↔ ((out.recommendation ≡ "apply") ⊎ (out.recommendation ≡ "APPLY")))
      × ((s.recommendation ≢ review) ⊎ (s.reasons ≢ []))
      × (pos 0 ≤ℤ s.value)
      × (s.value ≤ℤ pos 100)
      × ((s.confidence ≡ "high") ⊎ (s.confidence ≡ "medium") ⊎ (s.confidence ≡ "low"))
unfolding apply_evaluation
apply_evaluation_exact out = ground arith

-- Neither the score, nor the confidence, nor missing reasons keep a deep evaluation from
-- recommending to apply.
pub apply_evaluation_ignores :
    (out : EvaluationOutput) (score : ℤ) (confidence : String)
    → (apply_evaluation out).recommendation ≡ apply
    → let s =
        apply_evaluation (record out { score = score; confidence = confidence; reasons = [] }) in
      (s.recommendation ≡ apply) × (s.reasons ≡ [])
unfolding apply_evaluation
apply_evaluation_ignores out score confidence h = ground arith
