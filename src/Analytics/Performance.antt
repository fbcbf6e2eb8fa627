-- ===== src/Analytics/Performance.antt =====
-- internal/outcome/analytics.go: the performance of resume versions, sources and roles.
pub mod Groups
pub mod Reference
pub mod Keys
pub mod Laws
use careerpilot.Base.{
  ℕ, String, Bool, Option, none, some, List, [], ◌∷◌, ◌++◌, map, nat_eq, Eq, string_eq,
  String-discrete, ℤ, ℤ-discrete, int_eq,
}
use careerpilot.Base.Dict.{Dict, lookup, insert}
use careerpilot.Base.Order.{text_lt, name_lt}
use careerpilot.Base.Sort.{sort}
use careerpilot.Analytics.Records.{OutcomeRecord}
use careerpilot.Analytics.Funnel.{FunnelCounts, Rate, funnel, compute_rate}

pub record ResumeVersionPerformance : Type 0 where
  pub variant : String
  pub version : ℤ
  pub submitted : ℕ
  pub response_rate : Rate
  pub interview_rate : Rate
  pub offer_count : ℕ

pub record SourcePerformance : Type 0 where
  pub source : String
  pub submitted : ℕ
  pub response_rate : Rate
  pub interview_rate : Rate
  pub offer_count : ℕ

pub record RolePerformance : Type 0 where
  pub role : String
  pub submitted : ℕ
  pub response_rate : Rate
  pub interview_rate : Rate
  pub offer_count : ℕ

-- Both fields of a resume version are compared.
version-discrete : Discrete (String × ℤ)
version-discrete = hlevel (String-discrete, ℤ-discrete)

instance unfoldable pub version_eq : Eq (String × ℤ)
unfolding version-discrete
version_eq = record { dec = version-discrete }

module _ {K : Type 0} ⦃e : Eq K⦄ (key : OutcomeRecord → K) where
  -- What a Go map has at a key that may be missing: the nil slice.
  pub members : Option (List OutcomeRecord) → List OutcomeRecord
  members none = []
  members (some group) = group

  -- `groups[k] = append(groups[k], r)`
  pub add_record : Dict K (List OutcomeRecord) → OutcomeRecord → Dict K (List OutcomeRecord)
  unfolding members
  add_record groups r = insert (key r) (members (lookup (key r) groups) ++ (r ∷ [])) groups

  pub group_from : Dict K (List OutcomeRecord) → List OutcomeRecord → Dict K (List OutcomeRecord)
  group_from groups [] = groups
  group_from groups (r ∷ records) = group_from (add_record groups r) records

  pub group_by : List OutcomeRecord → Dict K (List OutcomeRecord)
  group_by records = group_from [] records

-- The bodies of the loops over the groups.
unfoldable pub version_performance : (String × ℤ) × List OutcomeRecord → ResumeVersionPerformance
version_performance ((variant, version), group) =
    let f = funnel group in
    record {
      variant = variant;
      version = version;
      submitted = f.submitted;
      response_rate = compute_rate f.responded f.submitted;
      interview_rate = compute_rate f.interview f.submitted;
      offer_count = f.offer;
    }

unfoldable pub source_performance : String × List OutcomeRecord → SourcePerformance
source_performance (source, group) =
    let f = funnel group in
    record {
      source = source;
      submitted = f.submitted;
      response_rate = compute_rate f.responded f.submitted;
      interview_rate = compute_rate f.interview f.submitted;
      offer_count = f.offer;
    }

unfoldable pub role_performance : String × List OutcomeRecord → RolePerformance
role_performance (role, group) =
    let f = funnel group in
    record {
      role = role;
      submitted = f.submitted;
      response_rate = compute_rate f.responded f.submitted;
      interview_rate = compute_rate f.interview f.submitted;
      offer_count = f.offer;
    }

-- The comparisons that the results are sorted by.
abbrev pub version_less : ResumeVersionPerformance → ResumeVersionPerformance → Bool
version_less p q = name_lt (p.variant, p.version) (q.variant, q.version)

abbrev pub source_less : SourcePerformance → SourcePerformance → Bool
source_less p q = text_lt p.source q.source

abbrev pub role_less : RolePerformance → RolePerformance → Bool
role_less p q = text_lt p.role q.role

abbrev pub resume_version : OutcomeRecord → String × ℤ
resume_version r = (r.resume_variant, r.resume_version)

-- `range_over` is the order in which `range` visits the groups.
unfoldable pub by_resume_version :
    (Dict (String × ℤ) (List OutcomeRecord) → Dict (String × ℤ) (List OutcomeRecord))
    → List OutcomeRecord
    → List ResumeVersionPerformance
by_resume_version range_over records =
    sort version_less (map version_performance (range_over (group_by resume_version records)))

unfoldable pub by_source :
    (Dict String (List OutcomeRecord) → Dict String (List OutcomeRecord))
    → List OutcomeRecord
    → List SourcePerformance
by_source range_over records =
    sort source_less (map source_performance (range_over (group_by (λ r. r.source) records)))

unfoldable pub by_role :
    (Dict String (List OutcomeRecord) → Dict String (List OutcomeRecord))
    → List OutcomeRecord
    → List RolePerformance
by_role range_over records =
    sort role_less (map role_performance (range_over (group_by (λ r. r.role) records)))
