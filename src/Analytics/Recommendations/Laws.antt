-- ===== src/Analytics/Recommendations/Laws.antt =====
-- Which resume versions are recommended for review.
use careerpilot.Base.{
  ℕ, String, ◌≡◌, refl, Bool, not, ◌&&◌, List, [], ◌∷◌, map, arith, ℤ, pos, ltb_ℤ,
}
use careerpilot.Base.Dict.{Dict}
use careerpilot.Base.Order.{name_lt}
use careerpilot.Base.Sort.{sort, Visited}
use careerpilot.Base.Reordered.{keep}
use careerpilot.Analytics.Records
use careerpilot.Analytics.Records.{OutcomeRecord}
use careerpilot.Analytics.Funnel.{compute_rate, response_rate}
use careerpilot.Analytics.Funnel.Counts.{reached, funnel_exact}
use careerpilot.Analytics.Performance.{version_eq, version_performance, resume_version}
use careerpilot.Analytics.Performance.Reference.{records_of, distinct_keys}
use careerpilot.Analytics.Performance.Laws.{versions_exact}
use careerpilot.Analytics.Recommendations.{
  Recommendation, value_lt, recommendation, recommend, recommend_low_performing_resume_versions,
}

-- The responses to the submissions among some records, as a fraction.
abbrev pub response_value : List OutcomeRecord → ℕ × ℕ
response_value records =
    (compute_rate (reached Records.responded records) (reached Records.submitted records)).value

-- At least so many submissions, and a smaller share of responses than among all records.
abbrev pub is_low : List OutcomeRecord → ℤ → String × ℤ → Bool
is_low records min_submissions k =
    let group = records_of resume_version k records in
    not (ltb_ℤ (pos (reached Records.submitted group)) min_submissions)
    && value_lt (response_value group) (response_value records)

-- The recommendation of a version from the records that have it.
abbrev pub recommendation_of : List OutcomeRecord → String × ℤ → Recommendation
recommendation_of records k =
    recommendation (version_performance (k, records_of resume_version k records))

recommend-map :
    (records : List OutcomeRecord) (min_submissions : ℤ) (keys : List (String × ℤ))
    → recommend
        (response_rate records)
        min_submissions
        (map (λ k. version_performance (k, records_of resume_version k records)) keys)
      ≡ map (recommendation_of records) (keep (is_low records min_submissions) keys)
unfolding recommend version_performance response_rate
recommend-map records min_submissions [] = refl
recommend-map records min_submissions (k ∷ keys) =
    let group = records_of resume_version k records in
    let rest = recommend-map records min_submissions keys in
    let group_submitted = (funnel_exact Records.submitted group (λ p. absurd (ground arith))).0 in
    let group_responded = (funnel_exact Records.responded group (λ p. absurd (ground arith))).0 in
    let all_submitted = (funnel_exact Records.submitted records (λ p. absurd (ground arith))).0 in
    let all_responded = (funnel_exact Records.responded records (λ p. absurd (ground arith))).0 in
    ground arith

-- However `range` visits the groups, a review is recommended for exactly the resume versions of the
-- records, in order, that have the least number of submissions and whose share of responded among
-- submitted records is below that of all records; each recommendation is the one made from the
-- version's own records.
pub recommendations_exact :
    (versions : Dict (String × ℤ) (List OutcomeRecord) → Dict (String × ℤ) (List OutcomeRecord))
    (records : List OutcomeRecord) (min_submissions : ℤ)
    → ((groups : Dict (String × ℤ) (List OutcomeRecord)) → Visited groups (versions groups))
    → recommend_low_performing_resume_versions versions records min_submissions
      ≡ map (recommendation_of records) (
          keep
            (is_low records min_submissions)
            (sort name_lt (distinct_keys resume_version records)))
unfolding recommend_low_performing_resume_versions
recommendations_exact versions records min_submissions visits =
    rw (versions_exact versions records visits)
      (recommend-map records min_submissions (sort name_lt (distinct_keys resume_version records)))
