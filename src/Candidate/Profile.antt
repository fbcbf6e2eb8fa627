-- ===== src/Candidate/Profile.antt =====
-- internal/candidate/profile.go: the candidate's career facts. No operation of the program reads
-- them; they are the shape in which the facts are kept.
use careerpilot.Base.{String, Bool, List, ℤ, Time}

pub record ContactInfo : Type 0 where
  pub full_name : String
  pub email : String
  pub phone : String
  pub location : String
  pub linked_in : String
  pub git_hub : String
  pub website : String

pub record Education : Type 0 where
  pub institution : String
  pub degree : String
  pub field_of_study : String
  pub start_date : Time
  pub end_date : Time
  pub notes : String

pub record Employment : Type 0 where
  pub company : String
  pub title : String
  pub start_date : Time
  pub end_date : Time
  pub location : String
  pub responsibilities : List String
  pub technologies : List String

pub record Project : Type 0 where
  pub name : String
  pub description : String
  pub technologies : List String
  pub url : String
  pub start_date : Time
  pub end_date : Time

pub record Certification : Type 0 where
  pub name : String
  pub issuer : String
  pub issued_date : Time
  pub expiry_date : Time
  pub credential_id : String

pub record Achievement : Type 0 where
  pub description : String
  pub date : Time

pub record WorkAuthorization : Type 0 where
  pub country : String
  pub status : String
  pub requires_sponsorship : Bool
  pub notes : String

pub record CompensationPreference : Type 0 where
  pub currency : String
  pub minimum_annual : ℤ
  pub target_annual : ℤ
  pub negotiable : Bool

pub record Preferences : Type 0 where
  pub target_roles : List String
  pub target_locations : List String
  pub remote_policy : String
  pub work_authorization : WorkAuthorization
  pub compensation : CompensationPreference

pub record Profile : Type 0 where
  pub id : String
  pub version : ℤ
  pub identity : ContactInfo
  pub education : List Education
  pub employment : List Employment
  pub projects : List Project
  pub technologies : List String
  pub certifications : List Certification
  pub achievements : List Achievement
  pub preferences : Preferences
  pub created_at : Time
  pub updated_at : Time
