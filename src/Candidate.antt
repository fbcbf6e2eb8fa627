-- ===== src/Candidate.antt =====
-- internal/candidate: the claims that resumes and answers may draw from, and the denylist.
pub mod Profile
use careerpilot.Base.{
  String, Bool, List, [], ◌∷◌, if◌then◌else◌, nat_eq, ◌==◌, string_eq, any, ℤ, int_eq, Time,
}

pub data ClaimSource : Type 0 where
  source_profile source_user_approved : ClaimSource

pub data Confidence : Type 0 where
  confidence_high confidence_medium confidence_low : Confidence

pub record Claim : Type 0 where
  pub id : String
  pub profile_id : String
  pub profile_version : ℤ
  pub text : String
  pub source : ClaimSource
  pub confidence : Confidence
  pub allowed_for_resume : Bool
  pub notes : String
  pub created_at : Time

pub record ForbiddenClaim : Type 0 where
  pub id : String
  pub profile_id : String
  pub text : String
  pub reason : String
  pub created_at : Time

unfoldable pub is_forbidden : String → List ForbiddenClaim → Bool
is_forbidden text forbidden = any (λ f. f.text == text) forbidden

-- The `allowedSet` that the answer and resume checks both build from a list of claims.
unfoldable pub allowed_set : List Claim → List String
allowed_set [] = []
allowed_set (c ∷ claims) =
    let rest = allowed_set claims in if c.allowed_for_resume then c.id ∷ rest else rest
