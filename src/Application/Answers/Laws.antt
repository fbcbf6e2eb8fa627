-- ===== src/Application/Answers/Laws.antt =====
-- Which answers reach AUTO.
use careerpilot.Base.{String, ◌≡◌, refl, ◌≢◌, ◌↔◌, ◌⊎◌, false, none, List, [], ◌∷◌, arith, All}
use careerpilot.Candidate.{Claim, allowed_set}
use careerpilot.Resume.Pipeline.Provenance.{IsAllowed, contains-allowed_set}
use careerpilot.Application.Types.{high, auto, review, Answer}
use careerpilot.Application.Answers.{always_review, first_missing, classify, has_unresolved_review}

first_missing-eq-none :
    (claims : List Claim) (ids : List String)
    → (first_missing (allowed_set claims) ids ≡ none) ↔ All (IsAllowed claims) ids
unfolding first_missing
first_missing-eq-none claims [] = (λ h. tt, λ h. refl)
first_missing-eq-none claims (id ∷ ids) =
    ground (arith, contains-allowed_set claims id, first_missing-eq-none claims ids)

-- An answer is AUTO exactly when its category may be answered automatically, its confidence is
-- high, and it has claims, each of them an allowed one; any other answer is put under REVIEW, and
-- nothing but the status and the reason ever changes.
pub classify_exact :
    (a : Answer) (claims : List Claim)
    → let b = classify a claims in
      ((b.status ≡ auto) ↔ (
        (always_review a.category ≡ false)
        × (a.confidence ≡ high)
        × (a.claim_ids ≢ [])
        × All (IsAllowed claims) a.claim_ids))
      × ((b.status ≡ auto) ⊎ (b.status ≡ review))
      × (b ≡ record a { status = b.status; reason = b.reason })
unfolding classify
classify_exact a claims = ground (arith, first_missing-eq-none claims a.claim_ids)

-- An answer needs review exactly when the loop finds it.
pub has_unresolved_review_exact :
    (answers : List Answer)
    → (has_unresolved_review answers ≡ false) ↔ All (λ a. a.status ≢ review) answers
unfolding has_unresolved_review
has_unresolved_review_exact [] = (λ h. tt, λ h. refl)
has_unresolved_review_exact (a ∷ answers) = ground (arith, has_unresolved_review_exact answers)
