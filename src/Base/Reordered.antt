-- ===== src/Base/Reordered.antt =====
-- What a list and another order of it have in common.
use mathlib.Core.Path.{◌≡◌, refl, sym, subst, ap, ◌∙◌}
use mathlib.Core.Logic.{inl, inr}
use mathlib.Core.Bool.{Bool, true, false, ◌||◌}
use mathlib.Core.List.{List, [], ◌∷◌, ◌++◌}
use native.Mathlib.Omega.{arith}
use careerpilot.Base.Tests.{if◌then◌else◌, Bool-cases, Eq, contains}
use careerpilot.Base.Lists.{length, length-append, All, any, count_if}
use careerpilot.Base.Order.{IsOrder}
use careerpilot.Base.Sort.{Visited, finished, visit}
use careerpilot.Base.Sorted.{Ascending}

module _ {ℓ} {A : Type ℓ} (p : A → Bool) where
  -- The elements that pass.
  abbrev pub keep : List A → List A
  keep [] = []
  keep (x ∷ xs) = let rest = keep xs in if p x then x ∷ rest else rest

  keep-append : (xs ys : List A) → keep (xs ++ ys) ≡ keep xs ++ keep ys
  keep-append [] ys = refl
  keep-append (x ∷ xs) ys = ground (arith, keep-append xs ys)

  pub Visited-keep : {xs ys : List A} → Visited xs ys → Visited (keep xs) (keep ys)
  Visited-keep finished = finished
  Visited-keep (visit xs ys x {zs} visits) =
      let inner : Visited (keep xs ++ keep ys) (keep zs) =
        rw (← keep-append xs ys) (Visited-keep visits) in
      rw (keep-append xs (x ∷ ys))
        (elim (p x)
          as (λ b.
            Visited (keep xs ++ (if b then x ∷ keep ys else keep ys))
              (if b then x ∷ keep zs else keep zs)) [
                | true ↦ visit (keep xs) (keep ys) x inner
                | false ↦ inner
              ])

  any_middle : (xs ys : List A) (x : A) → any p (xs ++ (x ∷ ys)) ≡ (p x || any p (xs ++ ys))
  any_middle [] ys x = refl
  any_middle (y ∷ xs) ys x = ground (arith, any_middle xs ys x)

  pub Visited-any : {xs ys : List A} → Visited xs ys → any p ys ≡ any p xs
  Visited-any finished = refl
  Visited-any (visit xs ys x visits) =
      ap (◌||◌ (p x)) (Visited-any visits) ∙ sym (any_middle xs ys x)

  count_if_middle :
      (xs ys : List A) (x : A) → count_if p (xs ++ (x ∷ ys)) ≡ count_if p (x ∷ (xs ++ ys))
  count_if_middle [] ys x = refl
  count_if_middle (y ∷ xs) ys x = ground (arith, count_if_middle xs ys x)

  pub Visited-count_if : {xs ys : List A} → Visited xs ys → count_if p ys ≡ count_if p xs
  Visited-count_if finished = refl
  Visited-count_if (visit xs ys x visits) =
      ground (arith, Visited-count_if visits, count_if_middle xs ys x)

pub Visited-length {ℓ} : {A : Type ℓ} {xs ys : List A} → Visited xs ys → length ys ≡ length xs
Visited-length finished = refl
Visited-length (visit xs ys x visits) =
    omega (arith, Visited-length visits, length-append xs (x ∷ ys), length-append xs ys)

-- An ascending list is determined by its elements.
module _ {ℓ} {A : Type ℓ} ⦃e : Eq A⦄ {less : A → A → Bool} (o : IsOrder less) where
  above_absent : (x : A) (ys : List A) → All (λ y. less x y ≡ true) ys → contains ys x ≡ false
  above_absent x [] above = refl
  above_absent x (y ∷ ys) (here, above) =
      let rest = above_absent x ys above in
      elim (e.dec y x) [
        | yes same ↦ let back = o.asymmetric here in absurd (cc)
        | no differ ↦ ground arith
      ]

  above_rest :
      (x y : A) (ys : List A)
      → less x y ≡ true
      → All (λ z. less y z ≡ true) ys
      → All (λ z. less x z ≡ true) ys
  above_rest x y [] below above = tt
  above_rest x y (z ∷ ys) below (here, above) =
      (o.transitive below here, above_rest x y ys below above)

  same_rest :
      (x a : A) (xs ys : List A)
      → contains xs x ≡ false
      → contains ys x ≡ false
      → contains (x ∷ xs) a ≡ contains (x ∷ ys) a
      → contains xs a ≡ contains ys a
  same_rest x a xs ys absent absent' same = elim (e.dec x a) [
    | yes met ↦ (rw met at absent) ∙ sym (rw met at absent')
    | no differ ↦ ground arith
  ]

  -- A smaller head is missing from the other list.
  smaller_head :
      (x y : A) (xs ys : List A)
      → less x y ≡ true
      → All (λ z. less y z ≡ true) ys
      → contains (x ∷ xs) x ≡ contains (y ∷ ys) x
      → ⊥
  smaller_head x y xs ys below above same =
      let absent = above_absent x (y ∷ ys) (below, above_rest x y ys below above) in ground arith

  pub Ascending-unique :
      (xs ys : List A)
      → Ascending less xs
      → Ascending less ys
      → ((a : A) → contains xs a ≡ contains ys a)
      → xs ≡ ys
  Ascending-unique [] [] up up' same = refl
  Ascending-unique [] (y ∷ ys) up up' same = let h = same y in absurd (ground arith)
  Ascending-unique (x ∷ xs) [] up up' same = let h = same x in absurd (ground arith)
  Ascending-unique (x ∷ xs) (y ∷ ys) (above, up) (above', up') same = elim (e.dec x y) [
    | yes met ↦
        let same' : (a : A) → contains (x ∷ xs) a ≡ contains (x ∷ ys) a =
          subst (λ z. (a : A) → contains (x ∷ xs) a ≡ contains (z ∷ ys) a) (sym met) same in
        let above'' : All (λ z. less x z ≡ true) ys =
          subst (λ z. All (λ w. less z w ≡ true) ys) (sym met) above' in
        let rest = Ascending-unique xs ys up up' λ a.
          same_rest x a xs ys (above_absent x xs above) (above_absent x ys above'') (same' a) in
        cc
    | no differ ↦ elim (Bool-cases (less x y)) [
      | inl below ↦ absurd (smaller_head x y xs ys below above' (same x))
      | inr other ↦ absurd (smaller_head y x ys xs (o.total differ other) above (sym (same y)))
    ]
  ]
