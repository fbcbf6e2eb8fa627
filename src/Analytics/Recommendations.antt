-- ===== src/Analytics/Recommendations.antt =====
-- internal/outcome/recommendation.go. Values of rates are compared as fractions, which is how the
-- floats compare as long as the counts stay below 2^17.
pub mod Laws
use careerpilot.Base.{
  ℕ, ◌*◌, String, ◌<>◌, Bool, List, [], ◌∷◌, if◌then◌else◌, ltb, ℤ, pos, ltb_ℤ, show_ℤ,
}
use careerpilot.Base.Dict.{Dict}
use careerpilot.Analytics.Records.{OutcomeRecord}
use careerpilot.Analytics.Funnel.{Rate, response_rate}
use careerpilot.Analytics.Performance.{ResumeVersionPerformance, by_resume_version}

pub record Recommendation : Type 0 where
  pub subject : String
  pub finding : String
  pub suggestion : String
  pub supporting_rate : Rate

-- `p < q` on the values of two rates.
abbrev pub value_lt : ℕ × ℕ → ℕ × ℕ → Bool
value_lt (a, b) (c, d) = ltb (a * d) (c * b)

-- What is appended for a version.
unfoldable pub recommendation : ResumeVersionPerformance → Recommendation
recommendation v = record {
  subject = "resume:" <> v.variant <> ":v" <> show_ℤ v.version;
  finding = "response rate below overall average";
  suggestion =
      "review this resume version's content for this role/variant before continuing to use it as-is";
  supporting_rate = v.response_rate;
}

-- The loop over the versions.
pub recommend : Rate → ℤ → List ResumeVersionPerformance → List Recommendation
recommend overall min_submissions [] = []
recommend overall min_submissions (v ∷ versions) =
    let rest = recommend overall min_submissions versions in
    if ltb_ℤ (pos v.submitted) min_submissions
    then rest
    else if value_lt v.response_rate.value overall.value
    then recommendation v ∷ rest
    else rest

unfoldable pub recommend_low_performing_resume_versions :
    (Dict (String × ℤ) (List OutcomeRecord) → Dict (String × ℤ) (List OutcomeRecord))
    → List OutcomeRecord
    → ℤ
    → List Recommendation
recommend_low_performing_resume_versions range_over records min_submissions =
    recommend (response_rate records) min_submissions (by_resume_version range_over records)
