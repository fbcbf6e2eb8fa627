-- ===== src/Analytics/Funnel.antt =====
-- internal/outcome/analytics.go: the funnel and the rates. A rate's value is kept as its two counts.
pub mod Counts
use careerpilot.Base.{ℕ, zero, suc, ◌+◌, Bool, true, false, List, [], ◌∷◌}
use careerpilot.Analytics.Records
use careerpilot.Analytics.Records.{FunnelStage, OutcomeRecord, has_stage}

pub record FunnelCounts : Type 0 where
  pub discovered : ℕ
  pub qualified : ℕ
  pub prepared : ℕ
  pub submitted : ℕ
  pub responded : ℕ
  pub interview : ℕ
  pub offer : ℕ
  pub rejected : ℕ
  pub withdrawn : ℕ

abbrev pub empty_funnel : FunnelCounts
empty_funnel = record {
  discovered = 0;
  qualified = 0;
  prepared = 0;
  submitted = 0;
  responded = 0;
  interview = 0;
  offer = 0;
  rejected = 0;
  withdrawn = 0;
}

abbrev pub bump : Bool → ℕ → ℕ
bump true n = n + 1
bump false n = n

-- The body of the loop.
pub count_record : FunnelCounts → OutcomeRecord → FunnelCounts
count_record f r = record {
  discovered = bump (has_stage r Records.discovered) f.discovered;
  qualified = bump (has_stage r Records.qualified) f.qualified;
  prepared = bump (has_stage r Records.prepared) f.prepared;
  submitted = bump (has_stage r Records.submitted) f.submitted;
  responded = bump (has_stage r Records.responded) f.responded;
  interview = bump (has_stage r Records.interview) f.interview;
  offer = bump (has_stage r Records.offer) f.offer;
  rejected = bump (has_stage r Records.rejected) f.rejected;
  withdrawn = bump (has_stage r Records.withdrawn) f.withdrawn;
}

pub count_records : FunnelCounts → List OutcomeRecord → FunnelCounts
count_records f [] = f
count_records f (r ∷ records) = count_records (count_record f r) records

unfoldable pub funnel : List OutcomeRecord → FunnelCounts
unfolding count_records
funnel records = count_records empty_funnel records

-- `value` as a fraction; the zero of an empty denominator is 0 over 1.
pub record Rate : Type 0 where
  pub numerator : ℕ
  pub denominator : ℕ
  pub value : ℕ × ℕ

unfoldable pub compute_rate : ℕ → ℕ → Rate
compute_rate numerator zero = record { numerator = numerator; denominator = 0; value = (0, 1) }
compute_rate numerator (suc n) = record {
  numerator = numerator;
  denominator = suc n;
  value = (numerator, suc n);
}

unfoldable pub response_rate : List OutcomeRecord → Rate
unfolding funnel
response_rate records = let f = funnel records in compute_rate f.responded f.submitted

unfoldable pub interview_rate : List OutcomeRecord → Rate
unfolding funnel
interview_rate records = let f = funnel records in compute_rate f.interview f.submitted
