-- ===== src/Resume/Pipeline/Provenance.antt =====
-- Which claims a check of provenance reports.
use careerpilot.Base.{
  String, ◌≡◌, refl, ◌↔◌, ◌⊎◌, Bool, true, false, ◌||◌, List, [], ◌∷◌, ◌++◌, arith, nat_eq,
  contains, string_eq, any, int_eq,
}
use careerpilot.Resume.Version.{Change}
use careerpilot.Resume.Pipeline.{validate_claim_provenance, missing_claims, missing_in_changes}
use careerpilot.Candidate.{Claim, allowed_set}

-- A claim with this id is allowed for resume use.
abbrev pub IsAllowed : List Claim → String → Type 0
IsAllowed [] id = ⊥
IsAllowed (c ∷ claims) id = ((c.id ≡ id) × (c.allowed_for_resume ≡ true)) ⊎ IsAllowed claims id

pub contains-allowed_set :
    (claims : List Claim) (id : String)
    → (contains (allowed_set claims) id ≡ true) ↔ IsAllowed claims id
unfolding allowed_set
contains-allowed_set [] id = (λ h. cc, λ h. absurd h)
contains-allowed_set (c ∷ claims) id = ground (arith, contains-allowed_set claims id)

contains-append :
    (xs ys : List String) (id : String)
    → contains (xs ++ ys) id ≡ (contains xs id || contains ys id)
contains-append [] ys id = refl
contains-append (x ∷ xs) ys id = ground (arith, contains-append xs ys id)

contains-missing_claims :
    (allowed ids : List String) (id : String)
    → (contains (missing_claims allowed ids) id ≡ true)
      ↔ ((contains ids id ≡ true) × (contains allowed id ≡ false))
unfolding missing_claims
contains-missing_claims allowed [] id = (λ h. cc, λ h. cc)
contains-missing_claims allowed (j ∷ ids) id =
    ground (arith, contains-missing_claims allowed ids id)

-- Some change refers to this claim.
abbrev pub refers_to : List Change → String → Bool
refers_to changes id = any (λ c. contains c.claim_ids id) changes

-- The report holds exactly the claims that some change refers to and that are not allowed.
pub contains-validate_claim_provenance :
    (changes : List Change) (allowed : List Claim) (id : String)
    → (contains (validate_claim_provenance changes allowed) id ≡ true)
      ↔ ((refers_to changes id ≡ true) × ¬ IsAllowed allowed id)
unfolding validate_claim_provenance
contains-validate_claim_provenance [] allowed id = (λ h. cc, λ h. cc)
contains-validate_claim_provenance (c ∷ changes) allowed id = ground (
  arith,
  contains-append (missing_claims (allowed_set allowed) c.claim_ids)
      (missing_in_changes (allowed_set allowed) changes) id,
  contains-missing_claims (allowed_set allowed) c.claim_ids id,
  contains-allowed_set allowed id,
  contains-validate_claim_provenance changes allowed id,
)
