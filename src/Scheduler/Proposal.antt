-- ===== src/Scheduler/Proposal.antt =====
-- internal/scheduler/resume_proposal.go.
pub mod Risks
use careerpilot.Base.{
  ℕ, String, Option, none, some, List, [], ◌∷◌, ◌++◌, if◌then◌else◌, ltb, ℤ, pos, Error, on_nil,
  Result, ok, err, M, ◌>>=◌, pure, call, on_ok, Time,
}

-- `unlisted` is any other string.
pub data Risk : Type 0 where
  low medium high : Risk
  unlisted : String → Risk

pub record ResumeProposal : Type 0 where
  pub id : String
  pub profile_id : String
  pub variant : String
  pub proposed_changes : List String
  pub reason : String
  pub affected_sections : List String
  pub page_count_estimate : ℤ
  pub risk : Risk
  pub created_at : Time

pub record DetectedChange : Type 0 where
  pub description : String
  pub section : String
  pub risk : Risk

pub data Call : Type 0 where
  detect_changes : String → Call
  new_id read_clock : Call
  save_proposal : ResumeProposal → Call

pub record Task : Type 0 where
  pub detect_changes : List Call → String → Result (List DetectedChange)
  pub save_proposal : List Call → ResumeProposal → Option Error
  pub new_id : List Call → String
  pub now : List Call → Time

unfoldable pub risk_rank : Risk → ℕ
risk_rank high = 3
risk_rank medium = 2
risk_rank _ = 1

-- The loop over the changes.
unfoldable pub collect : ResumeProposal → List DetectedChange → ResumeProposal
unfolding risk_rank
collect p [] = p
collect p (c ∷ changes) =
    collect
      (record p {
        proposed_changes = p.proposed_changes ++ (c.description ∷ []);
        affected_sections = p.affected_sections ++ (c.section ∷ []);
        risk = if ltb (risk_rank p.risk) (risk_rank c.risk) then c.risk else p.risk;
      })
      changes

abbrev pub no_changes : String → Time → String → String → ResumeProposal
no_changes id created profile_id variant = record {
  id = id;
  profile_id = profile_id;
  variant = variant;
  proposed_changes = [];
  reason = "scheduled resume update proposal";
  affected_sections = [];
  page_count_estimate = pos 0;
  risk = low;
  created_at = created;
}

module _ (t : Task) where
  -- `Run` on the detected changes. `ok none` stands for `nil, nil`.
  propose : String → String → List DetectedChange → M Call (Result (Option ResumeProposal))
  propose profile_id variant [] = pure (ok none)
  propose profile_id variant (c ∷ changes) = do
    id ← call new_id t.new_id
    created ← call read_clock t.now
    let proposal = collect (no_changes id created profile_id variant) (c ∷ changes)
    failure ← call (save_proposal proposal) (λ h. t.save_proposal h proposal)
    on_nil failure (λ e. err e) (pure (ok (some proposal)))

  pub run : String → String → M Call (Result (Option ResumeProposal))
  run profile_id variant = do
    detected ← call (detect_changes profile_id) (λ h. t.detect_changes h profile_id)
    on_ok detected (λ e. err e) λ changes. propose profile_id variant changes
