-- ===== src/Analytics/Calibration/Buckets.antt =====
-- Where a score falls, and that the buckets split the records.
use careerpilot.Base.{ℕ, ◌+◌, ◌≤◌, ◌≡◌, refl, List, [], ◌∷◌, arith, length, ℤ, pos, negsuc}
use careerpilot.Analytics.Records.{OutcomeRecord}
use careerpilot.Analytics.Calibration.{ScoreBucket, bucket_index, group, bucket, score_calibration}

abbrev pub total : List ScoreBucket → ℕ
total [] = 0
total (b ∷ bs) = b.count + total bs

bucket_index-bound : (score : ℤ) → bucket_index score ≤ 9
unfolding bucket_index
bucket_index-bound (pos n) = ground arith
bucket_index-bound (negsuc n) = ground arith

-- A score from 0 to 100 lies within the limits of the bucket that it is counted in.
pub bucket_exact :
    (n : ℕ) (records : List OutcomeRecord)
    → n ≤ 100
    → let b = bucket records (bucket_index (pos n)) in (b.min_score ≤ n) × (n ≤ b.max_score)
unfolding bucket bucket_index
bucket_exact n records small = ground arith

-- Every record is counted in exactly one bucket.
pub calibration_total :
    (records : List OutcomeRecord) → total (score_calibration records) ≡ length records
unfolding score_calibration bucket group
calibration_total [] = refl
calibration_total (r ∷ records) =
    ground (arith, calibration_total records, bucket_index-bound r.job_score)
