-- ===== src/Analytics/Performance/Laws.antt =====
-- That the performances are those of the reference, in whichever order a map is visited.
use careerpilot.Base.{
  string_eq, String, ◌≡◌, refl, ap, ◌∙◌, Bool, List, [], ◌∷◌, map, arith, nat_eq, Eq, ◌==◌,
  contains, string_eq, any, All, ℤ, int_eq,
}
use careerpilot.Base.Dict.{Dict}
use careerpilot.Base.Order.{IsOrder, text_lt, name_lt, text_lt-IsOrder, name_lt-IsOrder}
use careerpilot.Base.Sort.{sort, place, Visited, Visited-map, Visited-sort, Visited-All}
use careerpilot.Base.Sorted.{Ascending}
use careerpilot.Analytics.Performance.Keys.{sorted_keys-Ascending}
use careerpilot.Analytics.Records.{OutcomeRecord}
use careerpilot.Analytics.Performance.{
  version_eq, group_by, version_performance, source_performance, role_performance, version_less,
  source_less, role_less, resume_version, by_resume_version, by_source, by_role,
}
use careerpilot.Analytics.Performance.Reference.{distinct_keys, reference}
use careerpilot.Analytics.Performance.Groups.{entry, group_by-entries}

-- A sort of what a map made of the keys is what the map makes of the sorted keys.
module _ {K P : Type 0} (lt : K → K → Bool) (less : P → P → Bool) (f : K → P)
    (agree : (j k : K) → less (f j) (f k) ≡ lt j k) where
  place-map : (k : K) (keys : List K) → place less (f k) (map f keys) ≡ map f (place lt k keys)
  unfolding place
  place-map k [] = refl
  place-map k (j ∷ keys) = ground (arith, place-map k keys, agree j k)

  pub sort-map : (keys : List K) → sort less (map f keys) ≡ map f (sort lt keys)
  unfolding sort
  sort-map [] = refl
  sort-map (k ∷ keys) = rw (sort-map keys) (place-map k (sort lt keys))

module _ {K P : Type 0} ⦃e : Eq K⦄ (key : OutcomeRecord → K) {lt : K → K → Bool} (o : IsOrder lt)
    (less : P → P → Bool) (performance : K × List OutcomeRecord → P)
    (agree : (j k : K) (g g' : List OutcomeRecord)
      → less (performance (j, g)) (performance (k, g')) ≡ lt j k) where
  entries_same :
      (records : List OutcomeRecord) (keys : List K)
      → All (λ x. x ≡ entry key records x.0) (map (entry key records) keys)
  entries_same records [] = tt
  entries_same records (k ∷ keys) = (refl, entries_same records keys)

  performance-entries :
      (records : List OutcomeRecord) (visited : Dict K (List OutcomeRecord))
      → All (λ x. x ≡ entry key records x.0) visited
      → map performance visited
        ≡ map (λ k. performance (entry key records k)) (map (λ x. x.0) visited)
  performance-entries records [] same = refl
  performance-entries records (x ∷ visited) (here, same) =
      let rest = performance-entries records visited same in
      ap (λ y. performance y ∷ map performance visited) here
      ∙ ap (◌∷◌ (performance (entry key records x.0))) rest

  keys-entries :
      (records : List OutcomeRecord) (keys : List K)
      → map (λ x. x.0) (map (entry key records) keys) ≡ keys
  keys-entries records [] = refl
  keys-entries records (k ∷ keys) = ap (◌∷◌ k) (keys-entries records keys)

  -- However the groups are visited, the sorted performances are the reference's.
  pub visited-reference :
      (records : List OutcomeRecord) (visited : Dict K (List OutcomeRecord))
      → Visited (group_by key records) visited
      → sort less (map performance visited) ≡ reference key lt performance records
  visited-reference records visited visits =
      let (groups, apart) = group_by-entries key records in
      let ks = distinct_keys key records in
      let of_entries : Visited (map (entry key records) ks) visited = rw (← groups) visits in
      let names = map (λ x. x.0) visited in
      let visited_keys : Visited ks names =
        rw (← keys-entries records ks) (Visited-map (λ x. x.0) of_entries) in
      let seen =
        Visited-All (λ x. x ≡ entry key records x.0) of_entries (entries_same records ks) in
      let f : K → P = λ k. performance (entry key records k) in
      ap (sort less) (performance-entries records visited seen)
      ∙ sort-map lt less f (λ j k. agree j k _ _) names
      ∙ ap (map f) (Visited-sort o visited_keys apart)

pub versions_exact :
    (versions : Dict (String × ℤ) (List OutcomeRecord) → Dict (String × ℤ) (List OutcomeRecord))
    (records : List OutcomeRecord)
    → ((groups : Dict (String × ℤ) (List OutcomeRecord)) → Visited groups (versions groups))
    → by_resume_version versions records
      ≡ reference resume_version name_lt version_performance records
unfolding by_resume_version name_lt version_performance
versions_exact versions records visits =
    visited-reference resume_version name_lt-IsOrder version_less version_performance
      (λ j k g g'. refl) records _ (visits _)

-- However `range` visits the groups, the performances of resume versions, sources and roles are
-- those of the reference: one for every key that the records have, computed from the records with
-- that key, in the order of the sorted keys.
pub performances_exact :
    (versions : Dict (String × ℤ) (List OutcomeRecord) → Dict (String × ℤ) (List OutcomeRecord))
    (names : Dict String (List OutcomeRecord) → Dict String (List OutcomeRecord))
    (records : List OutcomeRecord)
    → ((groups : Dict (String × ℤ) (List OutcomeRecord)) → Visited groups (versions groups))
    → ((groups : Dict String (List OutcomeRecord)) → Visited groups (names groups))
    → (by_resume_version versions records
        ≡ reference resume_version name_lt version_performance records)
      × (by_source names records ≡ reference (λ r. r.source) text_lt source_performance records)
      × (by_role names records ≡ reference (λ r. r.role) text_lt role_performance records)
unfolding by_source by_role source_performance role_performance
performances_exact versions names records visits_versions visits_names = (
  versions_exact versions records visits_versions,
  visited-reference (λ r. r.source) text_lt-IsOrder source_less source_performance
      (λ j k g g'. refl) records _ (visits_names _),
  visited-reference (λ r. r.role) text_lt-IsOrder role_less role_performance (λ j k g g'. refl)
      records _ (visits_names _),
)

-- A list of keys that is ascending, and has a key exactly when a record has it.
abbrev pub Lists :
    {K : Type 0} ⦃e : Eq K⦄
    → (OutcomeRecord → K)
    → (K → K → Bool)
    → List OutcomeRecord
    → List K
    → Type 0
Lists {K} key lt records keys =
    Ascending lt keys × ((k : K) → contains keys k ≡ any (λ r. key r == k) records)

map_back :
    {K P : Type 0} (performance : K × List OutcomeRecord → P) (back : P → K)
    (reads : (x : K × List OutcomeRecord) → back (performance x) ≡ x.0)
    (f : K → K × List OutcomeRecord) (same : (k : K) → (f k).0 ≡ k) (keys : List K)
    → map back (map (λ k. performance (f k)) keys) ≡ keys
map_back performance back reads f same [] = refl
map_back performance back reads f same (k ∷ keys) =
    ap (λ j. j ∷ map back (map (λ k. performance (f k)) keys)) (reads (f k) ∙ same k)
    ∙ ap (◌∷◌ k) (map_back performance back reads f same keys)

-- The keys are read back off the performances.
reference-Lists :
    {K P : Type 0} ⦃e : Eq K⦄ (key : OutcomeRecord → K) {lt : K → K → Bool} (o : IsOrder lt)
    (performance : K × List OutcomeRecord → P) (back : P → K)
    (reads : (x : K × List OutcomeRecord) → back (performance x) ≡ x.0)
    (records : List OutcomeRecord)
    → Lists key lt records (map back (reference key lt performance records))
reference-Lists key {lt} o performance back reads records =
    let keys = sort lt (distinct_keys key records) in
    rw (map_back performance back reads (entry key records) (λ k. refl) keys)
      (sorted_keys-Ascending key o records)

-- However `range` visits the groups, the performances are listed in strictly ascending order of
-- variant and version, of source, or of role, and each of these is listed exactly when a record
-- has it.
pub listings_exact :
    (versions : Dict (String × ℤ) (List OutcomeRecord) → Dict (String × ℤ) (List OutcomeRecord))
    (names : Dict String (List OutcomeRecord) → Dict String (List OutcomeRecord))
    (records : List OutcomeRecord)
    → ((groups : Dict (String × ℤ) (List OutcomeRecord)) → Visited groups (versions groups))
    → ((groups : Dict String (List OutcomeRecord)) → Visited groups (names groups))
    → Lists resume_version name_lt records
        (map (λ p. (p.variant, p.version)) (by_resume_version versions records))
      × Lists (λ r. r.source) text_lt records (map (λ p. p.source) (by_source names records))
      × Lists (λ r. r.role) text_lt records (map (λ p. p.role) (by_role names records))
unfolding version_performance source_performance role_performance
listings_exact versions names records visits_versions visits_names =
    let (versions_same, sources_same, roles_same) =
      performances_exact versions names records visits_versions visits_names in
    (
      rw versions_same (
          reference-Lists resume_version name_lt-IsOrder version_performance _ (λ x. refl) records),
      rw sources_same (
          reference-Lists (λ r. r.source) text_lt-IsOrder source_performance _ (λ x. refl) records),
      rw roles_same
          (reference-Lists (λ r. r.role) text_lt-IsOrder role_performance _ (λ x. refl) records),
    )
