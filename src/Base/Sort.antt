-- ===== src/Base/Sort.antt =====
-- `sort.Slice` and `range` over a map. A sort is by insertion: where no two elements are equal every
-- sort has the same result.
use mathlib.Core.Path.{◌≡◌, refl, ap, sym, ◌∙◌}
use mathlib.Core.Logic.{◌≢◌, inl, inr}
use mathlib.Core.Bool.{Bool, true}
use mathlib.Core.List.{List, [], ◌∷◌, ◌++◌, map, map-append}
use native.Mathlib.Omega.{arith}
use careerpilot.Base.Tests.{if◌then◌else◌, Bool-cases}
use careerpilot.Base.Lists.{All}
use careerpilot.Base.Order.{IsOrder}

module _ {ℓ} {A : Type ℓ} (less : A → A → Bool) where
  unfoldable pub place : A → List A → List A
  place x [] = x ∷ []
  place x (y ∷ ys) = let rest = place x ys in if less y x then y ∷ rest else x ∷ y ∷ ys

  unfoldable pub sort : List A → List A
  unfolding place
  sort [] = []
  sort (x ∷ xs) = place x (sort xs)

-- `range` over a map: each entry once, in an order that the language leaves open.
pub data Visited {ℓ} {A : Type ℓ} : List A → List A → Type ℓ where
  finished : Visited [] []
  visit :
      (xs ys : List A) (x : A) {zs : List A}
      → Visited (xs ++ ys) zs
      → Visited (xs ++ (x ∷ ys)) (x ∷ zs)

module _ {ℓ} {A : Type ℓ} {less : A → A → Bool} (o : IsOrder less) where
  place_below :
      (x y : A) (zs : List A)
      → less x y ≡ true
      → place less x (place less y zs) ≡ place less y (place less x zs)
  unfolding place
  place_below x y [] below = let above = o.asymmetric below in ground arith
  place_below x y (z ∷ zs) below =
      let above = o.asymmetric below in
      let through = o.transitive {a = z} {b = x} {c = y} in
      let rest = place_below x y zs below in ground arith

  place_swap :
      (x y : A) (zs : List A)
      → x ≢ y
      → place less x (place less y zs) ≡ place less y (place less x zs)
  place_swap x y zs differ = elim (Bool-cases (less x y)) [
    | inl below ↦ place_below x y zs below
    | inr not_below ↦ sym (place_below y x zs (o.total differ not_below))
  ]

  -- An element that differs from all the others may be placed last.
  sort_middle :
      (xs ys : List A) (x : A)
      → All (λ y. x ≢ y) xs
      → sort less (xs ++ (x ∷ ys)) ≡ place less x (sort less (xs ++ ys))
  unfolding sort
  sort_middle [] ys x apart = refl
  sort_middle (a ∷ xs) ys x (differ, apart) =
      ap (place less a) (sort_middle xs ys x apart)
      ∙ sym (place_swap x a (sort less (xs ++ ys)) differ)

-- No element stands twice.
abbrev pub Distinct {ℓ} : {A : Type ℓ} → List A → Type ℓ
Distinct [] = Unit
Distinct (x ∷ xs) = All (λ y. x ≢ y) xs × Distinct xs

All-split {ℓ κ} :
    {A : Type ℓ} (P : A → Type κ) (xs ys : List A) {x : A}
    → All P (xs ++ (x ∷ ys))
    → All P (xs ++ ys) × P x
All-split P [] ys (p, ps) = (ps, p)
All-split P (a ∷ xs) ys (p, ps) = let (qs, q) = All-split P xs ys ps in ((p, qs), q)

Distinct-split {ℓ} :
    {A : Type ℓ} (xs ys : List A) (x : A)
    → Distinct (xs ++ (x ∷ ys))
    → Distinct (xs ++ ys) × All (λ y. x ≢ y) xs
Distinct-split [] ys x (apart, rest) = (rest, tt)
Distinct-split (a ∷ xs) ys x (apart, rest) =
    let (others, differ) = All-split (λ y. a ≢ y) xs ys apart in
    let (deeper, apart') = Distinct-split xs ys x rest in
    ((others, deeper), (λ same. differ (sym same), apart'))

-- A sort of what is visited does not show the order of the visits.
pub Visited-sort {ℓ} :
    {A : Type ℓ} {less : A → A → Bool} (o : IsOrder less) {xs ys : List A}
    → Visited xs ys
    → Distinct xs
    → sort less ys ≡ sort less xs
unfolding sort
Visited-sort o finished apart = refl
Visited-sort {less = less} o (visit xs ys x visits) apart =
    let (rest, differ) = Distinct-split xs ys x apart in
    ap (place less x) (Visited-sort o visits rest) ∙ sym (sort_middle o xs ys x differ)

pub Visited-map {ℓ κ} :
    {A : Type ℓ} {B : Type κ} (f : A → B) {xs ys : List A}
    → Visited xs ys
    → Visited (map f xs) (map f ys)
Visited-map f finished = finished
Visited-map f (visit xs ys x {zs} visits) =
    let inner = Visited-map f visits in
    rw (map-append f xs) (visit (map f xs) (map f ys) (f x) (rw (← map-append f xs ys) inner))

pub Visited-All {ℓ κ} :
    {A : Type ℓ} (P : A → Type κ) {xs ys : List A} → Visited xs ys → All P xs → All P ys
Visited-All P finished all_hold = tt
Visited-All P (visit xs ys x visits) all_hold =
    let (others, holds) = All-split P xs ys all_hold in (holds, Visited-All P visits others)
