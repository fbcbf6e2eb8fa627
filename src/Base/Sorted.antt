-- ===== src/Base/Sorted.antt =====
-- That a sort by insertion is ascending and keeps the elements.
use mathlib.Core.Path.{◌≡◌, refl, sym}
use mathlib.Core.Logic.{◌≢◌}
use mathlib.Core.Bool.{Bool, true, ◌||◌}
use mathlib.Core.List.{List, [], ◌∷◌}
use native.Mathlib.Omega.{arith}
use careerpilot.Base.Tests.{Eq, ◌==◌, contains, if_cases}
use careerpilot.Base.Lists.{All}
use careerpilot.Base.Order.{IsOrder}
use careerpilot.Base.Sort.{place, sort, Distinct}

-- Every element is below all that follow it.
abbrev pub Ascending {ℓ} : {A : Type ℓ} → (A → A → Bool) → List A → Type ℓ
Ascending less [] = Unit
Ascending less (x ∷ xs) = All (λ y. less x y ≡ true) xs × Ascending less xs

module _ {ℓ} {A : Type ℓ} (less : A → A → Bool) where
  All-place {κ} : (P : A → Type κ) (x : A) (ys : List A) → P x → All P ys → All P (place less x ys)
  unfolding place
  All-place P x [] here all_hold = (here, tt)
  All-place P x (y ∷ ys) here (holds, all_hold) =
      let rest = All-place P x ys here all_hold in
      if_cases (All P) (less y x) (y ∷ place less x ys) (x ∷ y ∷ ys) (λ later. (holds, rest))
        (λ now. (here, (holds, all_hold)))

  All-sort {κ} : (P : A → Type κ) (xs : List A) → All P xs → All P (sort less xs)
  unfolding sort
  All-sort P [] all_hold = tt
  All-sort P (x ∷ xs) (holds, all_hold) = All-place P x _ holds (All-sort P xs all_hold)

  module _ (o : IsOrder less) where
    below_rest :
        (x y : A) (ys : List A)
        → less x y ≡ true
        → All (λ z. less y z ≡ true) ys
        → All (λ z. less x z ≡ true) ys
    below_rest x y [] below above = tt
    below_rest x y (z ∷ ys) below (here, above) =
        (o.transitive below here, below_rest x y ys below above)

    place-Ascending :
        (x : A) (ys : List A)
        → All (λ y. x ≢ y) ys
        → Ascending less ys
        → Ascending less (place less x ys)
    unfolding place
    place-Ascending x [] apart up = (tt, tt)
    place-Ascending x (y ∷ ys) (differ, apart) (above, up) =
        let rest = place-Ascending x ys apart up in
        if_cases (Ascending less) (less y x) (y ∷ place less x ys) (x ∷ y ∷ ys)
          (λ later. (All-place (λ z. less y z ≡ true) x ys later above, rest))
          λ now.
            let below = o.total (λ same. differ (sym same)) now in
            ((below, below_rest x y ys below above), (above, up))

    pub sort-Ascending : (xs : List A) → Distinct xs → Ascending less (sort less xs)
    unfolding sort
    sort-Ascending [] apart = tt
    sort-Ascending (x ∷ xs) (differ, apart) =
        place-Ascending x (sort less xs) (All-sort (λ y. x ≢ y) xs differ) (sort-Ascending xs apart)

module _ {ℓ} {A : Type ℓ} ⦃e : Eq A⦄ (less : A → A → Bool) where
  contains-place :
      (x a : A) (ys : List A) → contains (place less x ys) a ≡ (x == a || contains ys a)
  unfolding place
  contains-place x a [] = refl
  contains-place x a (y ∷ ys) = ground (arith, contains-place x a ys)

  pub contains-sort : (a : A) (xs : List A) → contains (sort less xs) a ≡ contains xs a
  unfolding sort
  contains-sort a [] = refl
  contains-sort a (x ∷ xs) = ground (arith, contains-sort a xs, contains-place x a (sort less xs))
