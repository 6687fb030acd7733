-- ===== src/Rids/Order.antt =====
-- core/RIDList.h, the view of the RIDs is sorted by the entities, and has each RID once.
use etcs.Base.{
  ℕ, suc, ◌≡◌, refl, sym, subst, arith, Bool, true, false, List, [], ◌∷◌, none, some, ◌==◌,
  if◌then◌else◌, Bool-cases, inl, inr,
}
use etcs.Rids.{
  RidList, comes_before, before, place, stable_sort, sorted_rids, collect_rids, get_typed,
}

-- No element comes strictly before its predecessor.
abbrev pub IsSorted : (ℕ → ℕ → Bool) → List ℕ → Type 0
IsSorted less [] = Unit
IsSorted less (x ∷ []) = Unit
IsSorted less (x ∷ y ∷ ys) = (less y x ≡ false) × IsSorted less (y ∷ ys)

abbrev pub times : List ℕ → ℕ → ℕ
times [] r = 0
times (x ∷ xs) r = if x == r then suc (times xs r) else times xs r

abbrev pub Asymmetric : {A : Type 0} → (A → A → Bool) → Type 0
Asymmetric {A} less = (a b : A) → less a b ≡ true → less b a ≡ false

module _ (less : ℕ → ℕ → Bool) (asym : Asymmetric less) where
  step-IsSorted :
      (x y : ℕ) (ys : List ℕ) (b : Bool)
      → less y x ≡ b
      → IsSorted less (y ∷ ys)
      → IsSorted less (y ∷ place less x ys)
      → IsSorted less (if b then y ∷ place less x ys else x ∷ y ∷ ys)
  step-IsSorted x y ys true e old new = new
  step-IsSorted x y ys false e old new = (e, old)

  place-IsSorted_under :
      (x y : ℕ) (ys : List ℕ)
      → less y x ≡ true
      → IsSorted less (y ∷ ys)
      → IsSorted less (y ∷ place less x ys)
  unfolding place
  place-IsSorted_under x y [] e h = (asym y x e, tt)
  place-IsSorted_under x y (z ∷ zs) e (below, h) = elim (Bool-cases (less z x)) [
    | inl after ↦
        subst (λ (b : Bool). IsSorted less (y ∷ (if b then z ∷ place less x zs else x ∷ z ∷ zs)))
          (sym after) (below, place-IsSorted_under x z zs after h)
    | inr first ↦
        subst (λ (b : Bool). IsSorted less (y ∷ (if b then z ∷ place less x zs else x ∷ z ∷ zs)))
          (sym first) (asym y x e, (first, h))
  ]

  place-IsSorted : (x : ℕ) (ys : List ℕ) → IsSorted less ys → IsSorted less (place less x ys)
  unfolding place
  place-IsSorted x [] h = tt
  place-IsSorted x (y ∷ ys) h = elim (Bool-cases (less y x)) [
    | inl after ↦
        subst (λ (b : Bool). IsSorted less (if b then y ∷ place less x ys else x ∷ y ∷ ys))
          (sym after) (place-IsSorted_under x y ys after h)
    | inr first ↦
        subst (λ (b : Bool). IsSorted less (if b then y ∷ place less x ys else x ∷ y ∷ ys))
          (sym first) (first, h)
  ]

  stable_sort-IsSorted : (xs : List ℕ) → IsSorted less (stable_sort less xs)
  unfolding stable_sort
  stable_sort-IsSorted [] = tt
  stable_sort-IsSorted (x ∷ xs) = place-IsSorted x (stable_sort less xs) (stable_sort-IsSorted xs)

times-place :
    (less : ℕ → ℕ → Bool) (x : ℕ) (ys : List ℕ) (r : ℕ)
    → times (place less x ys) r ≡ times (x ∷ ys) r
unfolding place
times-place less x [] r = refl
times-place less x (y ∷ ys) r = ground (arith, times-place less x ys r)

times-stable_sort :
    (less : ℕ → ℕ → Bool) (xs : List ℕ) (r : ℕ) → times (stable_sort less xs) r ≡ times xs r
unfolding stable_sort
times-stable_sort less [] r = refl
times-stable_sort less (x ∷ xs) r =
    ground (arith, times-place less x (stable_sort less xs) r, times-stable_sort less xs r)

module _ {V : Type 0} (less : V → V → Bool) (asym : Asymmetric less) where
  comes_before-Asymmetric : Asymmetric (comes_before less)
  unfolding comes_before
  comes_before-Asymmetric none none e = refl
  comes_before-Asymmetric none (some b) e = refl
  comes_before-Asymmetric (some a) none e = absurd (cc)
  comes_before-Asymmetric (some a) (some b) e = asym a b e

  -- The sorted RIDs are the map's, each as often as there, and no entity comes strictly before its
  -- predecessor, nulls counting as first: where the entities' own order is asymmetric.
  pub sorted_rids-IsSorted :
      (l : RidList V)
      → IsSorted (before less l) (sorted_rids less l)
        × ((r : ℕ) → times (sorted_rids less l) r ≡ times (collect_rids l []) r)
  unfolding sorted_rids before
  sorted_rids-IsSorted l = (
    stable_sort-IsSorted (before less l)
        (λ a b e. comes_before-Asymmetric (get_typed l a) (get_typed l b) e) (collect_rids l []),
    times-stable_sort (before less l) (collect_rids l []),
  )
