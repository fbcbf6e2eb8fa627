-- ===== src/Analytics/Funnel/Counts.antt =====
-- The funnel counts, stage by stage, the records that reached it.
use careerpilot.Base.{ℕ, ◌+◌, ◌≤◌, ◌≡◌, refl, ◌≢◌, Bool, List, [], ◌∷◌, arith, length, count_if}
use careerpilot.Analytics.Records
use careerpilot.Analytics.Records.{FunnelStage, OutcomeRecord, has_stage}
use careerpilot.Analytics.Funnel.{
  FunnelCounts, empty_funnel, bump, count_record, count_records, funnel,
}

-- The records that ever reached a stage.
unfoldable pub reached : FunnelStage → List OutcomeRecord → ℕ
reached stage records = count_if (λ r. has_stage r stage) records

-- Every count of the funnel, read by its stage.
abbrev pub count_at : FunnelStage → FunnelCounts → ℕ
count_at Records.unset f = 0
count_at Records.discovered f = f.discovered
count_at Records.qualified f = f.qualified
count_at Records.prepared f = f.prepared
count_at Records.submitted f = f.submitted
count_at Records.responded f = f.responded
count_at Records.interview f = f.interview
count_at Records.offer f = f.offer
count_at Records.rejected f = f.rejected
count_at Records.withdrawn f = f.withdrawn

count_record-at :
    (stage : FunnelStage) (f : FunnelCounts) (r : OutcomeRecord)
    → stage ≢ Records.unset
    → count_at stage (count_record f r) ≡ bump (has_stage r stage) (count_at stage f)
unfolding count_record
count_record-at Records.unset f r named = absurd (named refl)
count_record-at _ f r named = refl

count_records-at :
    (stage : FunnelStage) (records : List OutcomeRecord) (f : FunnelCounts)
    → stage ≢ Records.unset
    → count_at stage (count_records f records) ≡ reached stage records + count_at stage f
unfolding count_records reached
count_records-at stage [] f named = omega arith
count_records-at stage (r ∷ records) f named = ground (
  arith,
  count_records-at stage records (count_record f r) named,
  count_record-at stage f r named,
)

empty_funnel-at : (stage : FunnelStage) → count_at stage empty_funnel ≡ 0
empty_funnel-at Records.unset = refl
empty_funnel-at _ = refl

count_if-length : {A : Type 0} (p : A → Bool) (xs : List A) → count_if p xs ≤ length xs
count_if-length p [] = omega arith
count_if-length p (x ∷ xs) = ground (arith, count_if-length p xs)

-- At every named stage the funnel counts exactly the records whose history has that stage, and so
-- at most as many as there are records.
pub funnel_exact :
    (stage : FunnelStage) (records : List OutcomeRecord)
    → stage ≢ Records.unset
    → (count_at stage (funnel records) ≡ reached stage records)
      × (count_at stage (funnel records) ≤ length records)
unfolding funnel reached
funnel_exact stage records named =
    let counted = count_records-at stage records empty_funnel named in
    let nothing = empty_funnel-at stage in
    (omega arith, omega (arith, count_if-length (λ r. has_stage r stage) records))
