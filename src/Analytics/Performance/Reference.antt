-- ===== src/Analytics/Performance/Reference.antt =====
-- What the performances are meant to be: one for every key that occurs, from the records with that
-- key, in the order of the keys.
use careerpilot.Base.{Bool, List, [], ◌∷◌, map, if◌then◌else◌, nat_eq, Eq, ◌==◌, string_eq, int_eq}
use careerpilot.Base.Sort.{sort}
use careerpilot.Analytics.Records.{OutcomeRecord}

module _ {K : Type 0} ⦃e : Eq K⦄ (key : OutcomeRecord → K) where
  -- The records with a key.
  abbrev pub records_of : K → List OutcomeRecord → List OutcomeRecord
  records_of k [] = []
  records_of k (r ∷ records) =
      let rest = records_of k records in if key r == k then r ∷ rest else rest

  -- A key behind the keys seen so far, unless it is one of them.
  abbrev pub add_key : List K → K → List K
  add_key [] k = k ∷ []
  add_key (j ∷ keys) k = let rest = add_key keys k in if j == k then j ∷ keys else j ∷ rest

  abbrev pub keys_from : List K → List OutcomeRecord → List K
  keys_from keys [] = keys
  keys_from keys (r ∷ records) = keys_from (add_key keys (key r)) records

  -- The keys that occur, each once.
  abbrev pub distinct_keys : List OutcomeRecord → List K
  distinct_keys records = keys_from [] records

  abbrev pub reference {ℓ} :
      {P : Type ℓ} → (K → K → Bool) → (K × List OutcomeRecord → P) → List OutcomeRecord → List P
  reference lt performance records =
      map (λ k. performance (k, records_of k records)) (sort lt (distinct_keys records))
