-- ===== src/Analytics/Reordered.antt =====
-- That the analytics of internal/outcome do not depend on the order of the records.
use careerpilot.Base.{
  ℕ, String, ◌≡◌, refl, sym, ap, ◌∙◌, ◌≢◌, Bool, List, [], ◌∷◌, map, arith, nat_eq, Eq, ◌==◌,
  string_eq, String-discrete, ℤ, int_eq,
}
use mathlib.Core.Path.{fun_ext}
use mathlib.Core.HLevel.{hedberg}
use mathlib.Core.Quot
use mathlib.Core.Quot.{Quot}
use careerpilot.Base.Dict.{Dict}
use careerpilot.Base.Order.{IsOrder, text_lt-IsOrder, name_lt-IsOrder}
use careerpilot.Base.Sort.{sort, Visited}
use careerpilot.Base.Reordered.{
  keep, Visited-length, Visited-keep, Visited-any, Visited-count_if, Ascending-unique,
}
use careerpilot.Analytics.Records
use careerpilot.Analytics.Records.{FunnelStage, OutcomeRecord}
use careerpilot.Analytics.Funnel.{FunnelCounts, Rate, funnel, response_rate, interview_rate}
use careerpilot.Analytics.Funnel.Counts.{reached, count_at, funnel_exact}
use careerpilot.Analytics.Performance.{
  version_eq, version_performance, source_performance, role_performance, resume_version,
  by_resume_version, by_source, by_role, ResumeVersionPerformance, SourcePerformance,
  RolePerformance,
}
use careerpilot.Analytics.Performance.Reference.{records_of, distinct_keys, reference}
use careerpilot.Analytics.Performance.Keys.{sorted_keys-Ascending}
use careerpilot.Analytics.Performance.Laws.{performances_exact}
use careerpilot.Analytics.Calibration.{group, bucket, bucket_index, score_calibration, ScoreBucket}
use careerpilot.Analytics.Recommendations.{Recommendation, recommend_low_performing_resume_versions}

-- Two funnels with the same counts are the same.
funnel_ext :
    (f g : FunnelCounts)
    → ((stage : FunnelStage) → stage ≢ Records.unset → count_at stage f ≡ count_at stage g)
    → f ≡ g
funnel_ext f g same =
    let discovered = same Records.discovered (λ p. absurd (ground arith)) in
    let qualified = same Records.qualified (λ p. absurd (ground arith)) in
    let prepared = same Records.prepared (λ p. absurd (ground arith)) in
    let submitted = same Records.submitted (λ p. absurd (ground arith)) in
    let responded = same Records.responded (λ p. absurd (ground arith)) in
    let interview = same Records.interview (λ p. absurd (ground arith)) in
    let offer = same Records.offer (λ p. absurd (ground arith)) in
    let rejected = same Records.rejected (λ p. absurd (ground arith)) in
    let withdrawn = same Records.withdrawn (λ p. absurd (ground arith)) in ground arith

pub Visited-funnel : {xs ys : List OutcomeRecord} → Visited xs ys → funnel ys ≡ funnel xs
unfolding reached
Visited-funnel {xs} {ys} visits = funnel_ext (funnel ys) (funnel xs) λ stage named.
    (funnel_exact stage ys named).0
    ∙ Visited-count_if (λ r. Records.has_stage r stage) visits
    ∙ sym (funnel_exact stage xs named).0

group-keep :
    (i : ℕ) (records : List OutcomeRecord)
    → group i records ≡ keep (λ r. bucket_index r.job_score == i) records
unfolding group
group-keep i [] = refl
group-keep i (r ∷ records) = ground (arith, group-keep i records)

Visited-group :
    (i : ℕ) {xs ys : List OutcomeRecord} → Visited xs ys → Visited (group i xs) (group i ys)
Visited-group i {xs} {ys} visits =
    rw (group-keep i xs, group-keep i ys) (Visited-keep (λ r. bucket_index r.job_score == i) visits)

Visited-bucket : {xs ys : List OutcomeRecord} → Visited xs ys → (i : ℕ) → bucket ys i ≡ bucket xs i
unfolding bucket
Visited-bucket visits i =
    let same = Visited-funnel (Visited-group i visits) in
    let as_long = Visited-length (Visited-group i visits) in rw (same, as_long) refl

Visited-calibration :
    {xs ys : List OutcomeRecord} → Visited xs ys → score_calibration ys ≡ score_calibration xs
unfolding score_calibration
Visited-calibration visits =
    ap (λ f. map f (0 ∷ 1 ∷ 2 ∷ 3 ∷ 4 ∷ 5 ∷ 6 ∷ 7 ∷ 8 ∷ 9 ∷ [])) (fun_ext (Visited-bucket visits))

module _ {K : Type 0} ⦃e : Eq K⦄ (key : OutcomeRecord → K) where
  records_of-keep :
      (k : K) (records : List OutcomeRecord)
      → records_of key k records ≡ keep (λ r. key r == k) records
  records_of-keep k [] = refl
  records_of-keep k (r ∷ records) = ground (arith, records_of-keep k records)

  Visited-records_of :
      (k : K) {xs ys : List OutcomeRecord}
      → Visited xs ys
      → Visited (records_of key k xs) (records_of key k ys)
  Visited-records_of k {xs} {ys} visits =
      rw (records_of-keep k xs, records_of-keep k ys) (Visited-keep (λ r. key r == k) visits)

  -- The sorted keys are those of any other order of the records.
  Visited-keys :
      {lt : K → K → Bool} (o : IsOrder lt) {xs ys : List OutcomeRecord}
      → Visited xs ys
      → sort lt (distinct_keys key ys) ≡ sort lt (distinct_keys key xs)
  Visited-keys o {xs} {ys} visits =
      let (up, has) = sorted_keys-Ascending key o xs in
      let (up', has') = sorted_keys-Ascending key o ys in
      Ascending-unique o _ _ up' up λ k. has' k ∙ Visited-any (λ r. key r == k) visits ∙ sym (has k)

  Visited-reference :
      {P : Type 0} {lt : K → K → Bool} (o : IsOrder lt) (performance : K × List OutcomeRecord → P)
      (by_funnel : (k : K) (g g' : List OutcomeRecord)
        → funnel g ≡ funnel g'
        → performance (k, g) ≡ performance (k, g'))
      {xs ys : List OutcomeRecord}
      → Visited xs ys
      → reference key lt performance ys ≡ reference key lt performance xs
  Visited-reference {lt = lt} o performance by_funnel {xs} {ys} visits =
      let each = λ (k : K).
        by_funnel k (records_of key k ys) (records_of key k xs)
          (Visited-funnel (Visited-records_of k visits)) in
      rw (Visited-keys o visits) (ap (λ f. map f (sort lt (distinct_keys key xs))) (fun_ext each))

-- All that internal/outcome computes from the records.
pub record Report : Type 0 where
  pub funnel_counts : FunnelCounts
  pub response : Rate
  pub interview : Rate
  pub calibration : List ScoreBucket
  pub versions : List ResumeVersionPerformance
  pub sources : List SourcePerformance
  pub roles : List RolePerformance
  pub recommendations : List Recommendation

Report-set : IsSet Report
Report-set = hlevel (hedberg String-discrete)

module _
    (versions : Dict (String × ℤ) (List OutcomeRecord) → Dict (String × ℤ) (List OutcomeRecord))
    (names : Dict String (List OutcomeRecord) → Dict String (List OutcomeRecord))
    (min_submissions : ℤ) where
  pub report : List OutcomeRecord → Report
  report records = record {
    funnel_counts = funnel records;
    response = response_rate records;
    interview = interview_rate records;
    calibration = score_calibration records;
    versions = by_resume_version versions records;
    sources = by_source names records;
    roles = by_role names records;
    recommendations = recommend_low_performing_resume_versions versions records min_submissions;
  }

  module _
      (visits_versions : (groups : Dict (String × ℤ) (List OutcomeRecord))
        → Visited groups (versions groups))
      (visits_names : (groups : Dict String (List OutcomeRecord))
        → Visited groups (names groups)) where
    Visited-performances :
        {xs ys : List OutcomeRecord}
        → Visited xs ys
        → (by_resume_version versions ys ≡ by_resume_version versions xs)
          × (by_source names ys ≡ by_source names xs)
          × (by_role names ys ≡ by_role names xs)
    unfolding version_performance source_performance role_performance
    Visited-performances {xs} {ys} visits =
        let (versions_then, sources_then, roles_then) =
          performances_exact versions names ys visits_versions visits_names in
        let (versions_now, sources_now, roles_now) =
          performances_exact versions names xs visits_versions visits_names in
        (
          versions_then
              ∙ Visited-reference resume_version name_lt-IsOrder version_performance
                  (λ k g g' same. rw same refl) visits
              ∙ sym versions_now,
          sources_then
              ∙ Visited-reference (λ r. r.source) text_lt-IsOrder source_performance
                  (λ k g g' same. rw same refl) visits
              ∙ sym sources_now,
          roles_then
              ∙ Visited-reference (λ r. r.role) text_lt-IsOrder role_performance
                  (λ k g g' same. rw same refl) visits
              ∙ sym roles_now,
        )

    -- However `range` visits the groups, the funnel, the rates, the calibration, the performances
    -- and the recommendations are the same for any other order of the records.
    pub report-reordered : {xs ys : List OutcomeRecord} → Visited xs ys → report ys ≡ report xs
    unfolding report response_rate interview_rate recommend_low_performing_resume_versions
    report-reordered {xs} {ys} visits =
        let (same_versions, same_sources, same_roles) = Visited-performances visits in
        let same_funnel = Visited-funnel visits in
        let same_calibration = Visited-calibration visits in
        rw (same_versions, same_sources, same_roles, same_funnel, same_calibration) refl

    -- So they are a function of the records with no order.
    report_of : Quot {α = List OutcomeRecord} Visited → Report
    report_of = Quot.lift Report-set report (λ xs ys visits. sym (report-reordered visits))
