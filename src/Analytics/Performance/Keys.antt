-- ===== src/Analytics/Performance/Keys.antt =====
-- Which keys the reference lists.
use careerpilot.Base.{
  ◌≡◌, ◌∙◌, Bool, ◌||◌, List, [], ◌∷◌, arith, nat_eq, Eq, ◌==◌, contains, string_eq, any, int_eq,
}
use careerpilot.Base.Order.{IsOrder}
use careerpilot.Base.Sort.{sort}
use careerpilot.Base.Sorted.{Ascending, sort-Ascending, contains-sort}
use careerpilot.Analytics.Records.{OutcomeRecord}
use careerpilot.Analytics.Performance.Reference.{add_key, keys_from, distinct_keys}
use careerpilot.Analytics.Performance.Groups.{group_by-entries}

module _ {K : Type 0} ⦃e : Eq K⦄ (key : OutcomeRecord → K) where
  contains-add_key :
      (keys : List K) (j k : K) → contains (add_key key keys j) k ≡ (contains keys k || j == k)
  contains-add_key [] j k = ground arith
  contains-add_key (i ∷ keys) j k = ground (arith, contains-add_key keys j k)

  contains-keys_from :
      (keys : List K) (records : List OutcomeRecord) (k : K)
      → contains (keys_from key keys records) k ≡ (contains keys k || any (λ r. key r == k) records)
  contains-keys_from keys [] k = ground arith
  contains-keys_from keys (r ∷ records) k = ground (
    arith,
    contains-keys_from (add_key key keys (key r)) records k,
    contains-add_key keys (key r) k,
  )

  -- The sorted keys are ascending, and they are the keys of the records.
  pub sorted_keys-Ascending :
      {lt : K → K → Bool} (o : IsOrder lt) (records : List OutcomeRecord)
      → Ascending lt (sort lt (distinct_keys key records))
        × ((k : K)
            → contains (sort lt (distinct_keys key records)) k ≡ any (λ r. key r == k) records)
  sorted_keys-Ascending {lt} o records = (
    sort-Ascending lt o _ (group_by-entries key records).1,
    λ k. contains-sort lt k (distinct_keys key records) ∙ contains-keys_from [] records k,
  )
