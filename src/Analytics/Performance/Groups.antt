-- ===== src/Analytics/Performance/Groups.antt =====
-- What the grouping loop builds.
use careerpilot.Base.{
  ◌≡◌, refl, ◌∙◌, ◌≢◌, false, none, some, List, [], ◌∷◌, ◌++◌, map, arith, if◌then◌else◌, nat_eq,
  Eq, ◌==◌, contains, string_eq, All, int_eq, if_cases,
}
use mathlib.Core.List.{append-nil, append_assoc}
use careerpilot.Base.Dict.{lookup, insert}
use careerpilot.Base.Sort.{Distinct}
use careerpilot.Analytics.Records.{OutcomeRecord}
use careerpilot.Analytics.Performance.{members, add_record, group_from, group_by}
use careerpilot.Analytics.Performance.Reference.{records_of, add_key, keys_from, distinct_keys}

module _ {K : Type 0} ⦃e : Eq K⦄ (key : OutcomeRecord → K) where
  -- The group of a key among the records seen so far.
  abbrev pub entry : List OutcomeRecord → K → K × List OutcomeRecord
  entry seen k = (k, records_of key k seen)

  records_of-append :
      (k : K) (seen : List OutcomeRecord) (r : OutcomeRecord)
      → records_of key k (seen ++ (r ∷ []))
        ≡ (if key r == k then records_of key k seen ++ (r ∷ []) else records_of key k seen)
  records_of-append k [] r = refl
  records_of-append k (q ∷ seen) r = ground (arith, records_of-append k seen r)

  lookup-entries :
      (k : K) (seen : List OutcomeRecord) (keys : List K)
      → lookup k (map (entry seen) keys)
        ≡ (if contains keys k then some (records_of key k seen) else none)
  unfolding lookup
  lookup-entries k seen [] = refl
  lookup-entries k seen (j ∷ keys) = ground (arith, lookup-entries k seen keys)

  entries-other :
      (seen : List OutcomeRecord) (r : OutcomeRecord) (keys : List K)
      → All (λ j. key r ≢ j) keys
      → map (entry seen) keys ≡ map (entry (seen ++ (r ∷ []))) keys
  entries-other seen r [] apart = refl
  entries-other seen r (j ∷ keys) (differ, apart) =
      ground (arith, entries-other seen r keys apart, records_of-append j seen r)

  insert-entries :
      (seen : List OutcomeRecord) (r : OutcomeRecord) (keys : List K)
      → Distinct keys
      → insert (key r) (records_of key (key r) seen ++ (r ∷ [])) (map (entry seen) keys)
        ≡ map (entry (seen ++ (r ∷ []))) (add_key key keys (key r))
  unfolding insert
  insert-entries seen r [] apart = ground (arith, records_of-append (key r) seen r)
  insert-entries seen r (j ∷ keys) (differ, apart) =
      let inner = insert-entries seen r keys apart in
      let here = records_of-append (key r) seen r in
      let there = records_of-append j seen r in
      elim (e.dec j (key r)) [
        | yes same ↦ let others = entries-other seen r keys (rw (← same) differ) in ground arith
        | no apart_too ↦ ground arith
      ]

  All-add_key {ℓ} :
      (P : K → Type ℓ) (keys : List K) (k : K) → All P keys → P k → All P (add_key key keys k)
  All-add_key P [] k all_hold holds = (holds, tt)
  All-add_key P (j ∷ keys) k (here, all_hold) holds =
      let rest = All-add_key P keys k all_hold holds in
      if_cases (All P) (j == k) (j ∷ keys) (j ∷ add_key key keys k) (λ same. (here, all_hold))
        (λ differ. (here, rest))

  add_key-Distinct : (keys : List K) (k : K) → Distinct keys → Distinct (add_key key keys k)
  add_key-Distinct [] k apart = (tt, tt)
  add_key-Distinct (j ∷ keys) k (differ, apart) =
      if_cases Distinct (j == k) (j ∷ keys) (j ∷ add_key key keys k) (λ same. (differ, apart))
        λ other. (
          All-add_key (λ y. j ≢ y) keys k differ (λ same. absurd (ground arith)),
          add_key-Distinct keys k apart,
        )

  contains-add_key :
      (keys : List K) (j k : K)
      → contains (add_key key keys j) k ≡ false
      → (contains keys k ≡ false) × (j ≢ k)
  contains-add_key [] j k missing = (refl, λ same. absurd (ground arith))
  contains-add_key (i ∷ keys) j k missing =
      let inner = contains-add_key keys j k in
      elim (e.dec i j) [
        | yes same ↦ (ground arith, λ met. absurd (ground arith))
        | no differ ↦ (ground arith, λ met. absurd (ground arith))
      ]

  -- No record seen so far has a key that is not listed.
  abbrev Covers : List K → List OutcomeRecord → Type 0
  Covers keys seen = (k : K) → contains keys k ≡ false → records_of key k seen ≡ []

  add_record-entries :
      (seen : List OutcomeRecord) (keys : List K) (r : OutcomeRecord)
      → Distinct keys
      → Covers keys seen
      → add_record key (map (entry seen) keys) r
        ≡ map (entry (seen ++ (r ∷ []))) (add_key key keys (key r))
  unfolding add_record members
  add_record-entries seen keys r apart covered =
      let found = lookup-entries (key r) seen keys in
      let unseen = covered (key r) in
      let same : members key (lookup (key r) (map (entry seen) keys))
          ≡ records_of key (key r) seen =
        ground arith in
      rw same (insert-entries seen r keys apart)

  group_from-entries :
      (seen : List OutcomeRecord) (keys : List K) (records : List OutcomeRecord)
      → Distinct keys
      → Covers keys seen
      → (group_from key (map (entry seen) keys) records
          ≡ map (entry (seen ++ records)) (keys_from key keys records))
        × Distinct (keys_from key keys records)
  unfolding group_from
  group_from-entries seen keys [] apart covered = (rw (append-nil seen) refl, apart)
  group_from-entries seen keys (r ∷ records) apart covered =
      let covered' : Covers (add_key key keys (key r)) (seen ++ (r ∷ [])) = λ k missing.
        let (before, differ) = contains-add_key keys (key r) k missing in
        let none_before = covered k before in
        let one_more = records_of-append k seen r in ground arith in
      let (rest, distinct) =
        group_from-entries (seen ++ (r ∷ [])) (add_key key keys (key r)) records
          (add_key-Distinct keys (key r) apart) covered' in
      (
        rw (add_record-entries seen keys r apart covered)
            (rest ∙ rw (append_assoc seen (r ∷ []) records) refl),
        distinct,
      )

  pub group_by-entries :
      (records : List OutcomeRecord)
      → (group_by key records ≡ map (entry records) (distinct_keys key records))
        × Distinct (distinct_keys key records)
  unfolding group_by
  group_by-entries records = group_from-entries [] [] records tt (λ k missing. refl)
