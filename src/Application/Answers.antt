-- ===== src/Application/Answers.antt =====
-- internal/application/answer.go: which answers may be submitted with no human.
pub mod Laws
use careerpilot.Base.{
  String, ◌<>◌, Bool, true, false, not, Option, none, some, List, [], ◌∷◌, if◌then◌else◌, nat_eq,
  ◌==◌, contains, string_eq, length, any, int_eq,
}
use careerpilot.Candidate.{Claim, allowed_set}
use careerpilot.Application.Types.{
  answer_confidence_eq, answer_status_eq, high, auto, review, Category, work_authorization,
  sponsorship, relocation, compensation, demographic, legal_declaration, category_text, Answer,
}

-- The map `alwaysReview`.
unfoldable pub always_review : Category → Bool
always_review work_authorization = true
always_review sponsorship = true
always_review relocation = true
always_review compensation = true
always_review demographic = true
always_review legal_declaration = true
always_review _ = false

-- The first claim that is not in the set, on which the loop returns.
unfoldable pub first_missing : List String → List String → Option String
first_missing allowed [] = none
first_missing allowed (id ∷ ids) =
    let rest = first_missing allowed ids in if not (contains allowed id) then some id else rest

abbrev needs_review : Answer → String → Answer
needs_review a why = record a { status = review; reason = why }

unfoldable pub classify : Answer → List Claim → Answer
classify a allowed_claims =
    if always_review a.category
    then needs_review a ("category " <> category_text a.category <> " always requires human review")
    else if not (a.confidence == high)
    then needs_review a "confidence is not high"
    else if length a.claim_ids == 0
    then needs_review a "answer has no supporting claim"
    else elim (first_missing (allowed_set allowed_claims) a.claim_ids) [
      | some id ↦ needs_review a ("claim " <> id <> " is missing or not allowed")
      | none ↦ record a { status = auto; reason = "" }
    ]

unfoldable pub has_unresolved_review : List Answer → Bool
has_unresolved_review answers = any (λ a. a.status == review) answers
