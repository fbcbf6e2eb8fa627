-- ===== src/Scheduler/Proposal/Risks.antt =====
-- A proposal carries the highest risk of its changes, and every change.
use careerpilot.Base.{◌≤◌, ◌≡◌, sym, ◌∙◌, List, [], ◌∷◌, ◌++◌, map, arith, if◌then◌else◌, ltb, All}
use mathlib.Core.List.{append-nil, append_assoc}
use careerpilot.Scheduler.Proposal.{Risk, ResumeProposal, DetectedChange, risk_rank, collect}

risk-higher :
    (a b : Risk)
    → let higher = if ltb (risk_rank a) (risk_rank b) then b else a in
      (risk_rank a ≤ risk_rank higher) × (risk_rank b ≤ risk_rank higher)
risk-higher a b = ground arith

collect-risk :
    (p : ResumeProposal) (changes : List DetectedChange)
    → let q = collect p changes in
      (risk_rank p.risk ≤ risk_rank q.risk) × All (λ c. risk_rank c.risk ≤ risk_rank q.risk) changes
unfolding collect
collect-risk p [] = (omega arith, tt)
collect-risk p (c ∷ changes) =
    let p' : ResumeProposal = record p {
      proposed_changes = p.proposed_changes ++ (c.description ∷ []);
      affected_sections = p.affected_sections ++ (c.section ∷ []);
      risk = if ltb (risk_rank p.risk) (risk_rank c.risk) then c.risk else p.risk;
    } in
    let (up, all_changes) = collect-risk p' changes in
    let higher = risk-higher p.risk c.risk in
    (omega (arith, higher.0, up), (omega (arith, higher.1, up), all_changes))

append-snoc :
    {A : Type 0} (xs : List A) (x : A) (ys : List A) → (xs ++ (x ∷ [])) ++ ys ≡ xs ++ (x ∷ ys)
append-snoc xs x ys = append_assoc xs (x ∷ []) ys

collect-changes :
    (p : ResumeProposal) (changes : List DetectedChange)
    → let q = collect p changes in
      (q.proposed_changes ≡ p.proposed_changes ++ map (λ c. c.description) changes)
      × (q.affected_sections ≡ p.affected_sections ++ map (λ c. c.section) changes)
unfolding collect
collect-changes p [] = (sym (append-nil _), sym (append-nil _))
collect-changes p (c ∷ changes) =
    let p' : ResumeProposal = record p {
      proposed_changes = p.proposed_changes ++ (c.description ∷ []);
      affected_sections = p.affected_sections ++ (c.section ∷ []);
      risk = if ltb (risk_rank p.risk) (risk_rank c.risk) then c.risk else p.risk;
    } in
    let (described, placed) = collect-changes p' changes in
    (
      described ∙ append-snoc p.proposed_changes c.description _,
      placed ∙ append-snoc p.affected_sections c.section _,
    )

-- A proposal lists the descriptions and the sections of all its changes, in their order, and its
-- risk ranks at least as high as that of each of them.
pub collect_exact :
    (p : ResumeProposal) (changes : List DetectedChange)
    → let q = collect p changes in
      (q.proposed_changes ≡ p.proposed_changes ++ map (λ c. c.description) changes)
      × (q.affected_sections ≡ p.affected_sections ++ map (λ c. c.section) changes)
      × All (λ c. risk_rank c.risk ≤ risk_rank q.risk) changes
collect_exact p changes =
    let (described, placed) = collect-changes p changes in
    (described, placed, (collect-risk p changes).1)
