-- ===== src/Analytics/Calibration.antt =====
-- internal/outcome/analytics.go: job-score calibration by deciles.
pub mod Buckets
use careerpilot.Base.{
  ℕ, ◌+◌, ◌*◌, List, [], ◌∷◌, map, if◌then◌else◌, nat_eq, ◌==◌, string_eq, length, ℤ, pos, int_eq,
  pos_part, ltb_ℤ, quot,
}
use careerpilot.Analytics.Records.{OutcomeRecord}
use careerpilot.Analytics.Funnel.{Rate, funnel, compute_rate}

pub record ScoreBucket : Type 0 where
  pub min_score : ℕ
  pub max_score : ℕ
  pub count : ℕ
  pub response_rate : Rate
  pub interview_rate : Rate
  pub offer_count : ℕ

-- The index of a score's bucket: `JobScore / 10`, kept within 0 and 9.
unfoldable pub bucket_index : ℤ → ℕ
bucket_index score =
    let idx = quot score 10 in
    let high = if ltb_ℤ (pos 9) idx then pos 9 else idx in
    pos_part (if ltb_ℤ high (pos 0) then pos 0 else high)

-- `grouped[idx]`: the records of a bucket, in their order.
unfoldable pub group : ℕ → List OutcomeRecord → List OutcomeRecord
group idx [] = []
group idx (r ∷ records) =
    let rest = group idx records in if bucket_index r.job_score == idx then r ∷ rest else rest

-- `buckets[i]`, its limits by `defaultScoreBuckets`.
unfoldable pub bucket : List OutcomeRecord → ℕ → ScoreBucket
unfolding group
bucket records i =
    let members = group i records in
    let f = funnel members in
    record {
      min_score = i * 10;
      max_score = if i == 9 then 100 else i * 10 + 9;
      count = length members;
      response_rate = compute_rate f.responded f.submitted;
      interview_rate = compute_rate f.interview f.submitted;
      offer_count = f.offer;
    }

unfoldable pub score_calibration : List OutcomeRecord → List ScoreBucket
unfolding bucket
score_calibration records = map (bucket records) (0 ∷ 1 ∷ 2 ∷ 3 ∷ 4 ∷ 5 ∷ 6 ∷ 7 ∷ 8 ∷ 9 ∷ [])
