-- ===== src/Analytics/Tests.antt =====
-- The analytics of internal/outcome on one application.
use careerpilot.Base.{◌≡◌, refl, ap, ◌∙◌, List, [], ◌∷◌, map, string_eq, pos}
use careerpilot.Base.Order.{text_lt, name_lt}
use careerpilot.Base.Sort.{Visited, sort, place}
use careerpilot.Base.Reordered.{keep}
use careerpilot.Analytics.Performance.{
  version_eq, version_performance, source_performance, role_performance, resume_version,
  by_resume_version, by_source, by_role,
}
use careerpilot.Analytics.Performance.Reference.{distinct_keys, reference}
use careerpilot.Analytics.Performance.Laws.{performances_exact}
use careerpilot.Analytics.Recommendations.{recommend_low_performing_resume_versions}
use careerpilot.Analytics.Recommendations.Laws.{is_low, recommendation_of, recommendations_exact}
use careerpilot.Analytics.Records
use careerpilot.Analytics.Records.{OutcomeRecord}
use careerpilot.Analytics.Reordered.{report, report-reordered}

abbrev applied : OutcomeRecord
applied = record {
  id = "o1";
  application_id = "a1";
  job_id = "j1";
  role = "engineer";
  company = "Acme";
  source = "greenhouse";
  resume_variant = "fde";
  resume_version = pos 2;
  job_score = pos 87;
  application_date = pos 0;
  stages = record { stage = Records.submitted; timestamp = pos 1 } ∷ [];
  final_outcome = Records.unset;
}

-- A map that is visited at its second entry first.
abbrev second_first : {A : Type 0} → List A → List A
second_first (x ∷ y ∷ zs) = y ∷ x ∷ zs
second_first zs = zs

in_order : {A : Type 0} (zs : List A) → Visited zs zs
in_order [] = Visited.finished
in_order (z ∷ zs) = Visited.visit [] zs z (in_order zs)

visits_all : {A : Type 0} (zs : List A) → Visited zs (second_first zs)
visits_all [] = Visited.finished
visits_all (x ∷ []) = in_order (x ∷ [])
visits_all (x ∷ y ∷ zs) = Visited.visit (x ∷ []) zs y (Visited.visit [] zs x (in_order zs))

abbrev answered : OutcomeRecord
answered = record applied {
  resume_version = pos 1;
  source = "lever";
  role = "architect";
  stages =
      record { stage = Records.responded; timestamp = pos 2 }
      ∷ record { stage = Records.submitted; timestamp = pos 1 }
      ∷ [];
}

abbrev outcomes : List OutcomeRecord
outcomes = applied ∷ answered ∷ []

performances_exact_example :
    (by_resume_version second_first outcomes
      ≡ reference resume_version name_lt version_performance outcomes)
    × (by_source second_first outcomes
        ≡ reference (λ r. r.source) text_lt source_performance outcomes)
    × (by_role second_first outcomes ≡ reference (λ r. r.role) text_lt role_performance outcomes)
performances_exact_example =
    performances_exact second_first second_first outcomes visits_all visits_all

sources_in_order :
    map (λ p. p.source) (by_source second_first outcomes) ≡ "greenhouse" ∷ "lever" ∷ []
unfolding sort place source_performance text_lt string_eq
sources_in_order =
    ap (map (λ p. p.source))
      (performances_exact second_first second_first outcomes visits_all visits_all).1
    ∙ refl

recommendations_exact_example :
    recommend_low_performing_resume_versions second_first outcomes (pos 1)
    ≡ map
        (recommendation_of outcomes)
        (keep (is_low outcomes (pos 1)) (sort name_lt (distinct_keys resume_version outcomes)))
recommendations_exact_example = recommendations_exact second_first outcomes (pos 1) visits_all

report-reordered_example :
    report second_first second_first (pos 1) (answered ∷ applied ∷ [])
    ≡ report second_first second_first (pos 1) outcomes
report-reordered_example =
    report-reordered second_first second_first (pos 1) visits_all visits_all
      (Visited.visit (applied ∷ []) [] answered (in_order (applied ∷ [])))
