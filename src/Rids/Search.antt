-- ===== src/Rids/Search.antt =====
-- core/RIDList.h, the search by order finds the RIDs of the entities that equal the key.
use etcs.Base.{
  ℕ, ◌≡◌, refl, ap, subst, ◌∙◌, fun_ext, arith, ℕ_discrete, Bool, true, false, not, ◌&&◌, List, [],
  ◌∷◌, ◌++◌, Option, none, some, if◌then◌else◌, ◌⊎◌, inl, inr,
}
use etcs.Rids.{
  RidList, comes_before, before, sorted_rids, drop_while, take_until, entity_below, entity_above,
  equal_range, get_typed, rebuild, find, entity_or_null, search_ordered, collect_ordered,
  collect_rids,
}
use etcs.Rids.Calls.{Call, Store, run, new_world, less_at, view_lem}
use etcs.Rids.Order.{IsSorted, Asymmetric, times, sorted_rids-IsSorted}

abbrev pub filter : (ℕ → Bool) → List ℕ → List ℕ
filter test [] = []
filter test (x ∷ xs) = if test x then x ∷ filter test xs else filter test xs

-- Along a sorted list the first test stays false once it is, and the second stays true.
abbrev IsSplit : (ℕ → Bool) → (ℕ → Bool) → List ℕ → Type 0
IsSplit low high [] = Unit
IsSplit low high (x ∷ []) = Unit
IsSplit low high (x ∷ y ∷ ys) =
    (low x ≡ false → low y ≡ false) × (high x ≡ true → high y ≡ true) × IsSplit low high (y ∷ ys)

module _ (low high : ℕ → Bool) where
  abbrev between : ℕ → Bool
  between x = not (low x) && not (high x)

  none_above :
      (x : ℕ) (xs : List ℕ)
      → IsSplit low high (x ∷ xs)
      → high x ≡ true
      → filter between (x ∷ xs) ≡ []
  none_above x [] h e = ground arith
  none_above x (y ∷ ys) (lows, highs, h) e = ground (arith, none_above y ys h (highs e))

  until_above :
      (x : ℕ) (xs : List ℕ)
      → IsSplit low high (x ∷ xs)
      → low x ≡ false
      → take_until high (x ∷ xs) ≡ filter between (x ∷ xs)
  unfolding take_until
  until_above x [] h e = ground arith
  until_above x (y ∷ ys) (lows, highs, h) e =
      ground (arith, none_above x (y ∷ ys) (lows, highs, h), until_above y ys h (lows e))

  range_is_filter :
      (xs : List ℕ) → IsSplit low high xs → take_until high (drop_while low xs) ≡ filter between xs
  unfolding drop_while take_until
  range_is_filter [] h = refl
  range_is_filter (x ∷ []) h = ground (arith, until_above x [] tt)
  range_is_filter (x ∷ y ∷ ys) (lows, highs, h) =
      ground (arith, until_above x (y ∷ ys) (lows, highs, h), range_is_filter (y ∷ ys) h)

abbrev pub Cotransitive : {A : Type 0} → (A → A → Bool) → Type 0
Cotransitive {A} less = (a b c : A) → less a c ≡ true → (less a b ≡ true) ⊎ (less b c ≡ true)

-- The entities that neither come before the key nor after it.
abbrev pub matches : {V : Type 0} → (V → V → Bool) → RidList V → V → ℕ → Bool
matches less l key r =
    not (entity_below less (get_typed l r) key) && not (entity_above less (get_typed l r) key)

module _ {V : Type 0} (less : V → V → Bool) (cotrans : Cotransitive less) where
  not_both : (b : Bool) → (b ≡ true → ⊥) → b ≡ false
  not_both true h = absurd (h refl)
  not_both false h = refl

  below_stays :
      (ex ey : Option V) (key : V)
      → comes_before less ey ex ≡ false
      → entity_below less ex key ≡ false
      → entity_below less ey key ≡ false
  unfolding comes_before entity_below
  below_stays none ey key e h = absurd (cc)
  below_stays (some a) none key e h = absurd (cc)
  below_stays (some a) (some b) key e h =
      not_both (less b key) (λ up. elim (cotrans b a key up) [ inl g ↦ cc | inr g ↦ cc ])

  above_stays :
      (ex ey : Option V) (key : V)
      → comes_before less ey ex ≡ false
      → entity_above less ex key ≡ true
      → entity_above less ey key ≡ true
  unfolding comes_before entity_above
  above_stays none ey key e h = absurd (cc)
  above_stays (some a) none key e h = absurd (cc)
  above_stays (some a) (some b) key e h = elim (cotrans key b a h) [
    | inl g ↦ g
    | inr g ↦ absurd (cc)
  ]

  module _ (l : RidList V) (key : V) where
    low : ℕ → Bool
    low a = entity_below less (get_typed l a) key

    high : ℕ → Bool
    high b = entity_above less (get_typed l b) key

    sorted-IsSplit : (xs : List ℕ) → IsSorted (before less l) xs → IsSplit low high xs
    unfolding before low high
    sorted-IsSplit [] h = tt
    sorted-IsSplit (x ∷ []) h = tt
    sorted-IsSplit (x ∷ y ∷ ys) (e, h) = (
      below_stays (get_typed l x) (get_typed l y) key e,
      above_stays (get_typed l x) (get_typed l y) key e,
      sorted-IsSplit (y ∷ ys) h,
    )

    equal_range-filter :
        (xs : List ℕ)
        → IsSorted (before less l) xs
        → equal_range less l key xs ≡ filter (matches less l key) xs
    unfolding equal_range low high
    equal_range-filter xs h = range_is_filter low high xs (sorted-IsSplit xs h)

  get_typed-rebuild : (l : RidList V) (r : ℕ) → get_typed (rebuild less l) r ≡ get_typed l r
  unfolding rebuild get_typed
  get_typed-rebuild l r =
      ap (λ (e : List (ℕ × Option V)). entity_or_null (find e r)) (same l.ordered_stale)
    where
      same :
          (b : Bool)
          → (if b
              then record l { ordered = sorted_rids less l; ordered_stale = false }
              else l).entities
            ≡ l.entities
      same true = refl
      same false = refl

  equal_range-rebuild :
      (l : RidList V) (key : V) (rids : List ℕ)
      → equal_range less (rebuild less l) key rids ≡ equal_range less l key rids
  unfolding equal_range
  equal_range-rebuild l key rids =
      ap
        (λ (g : ℕ → Option V).
          take_until (λ b. entity_above less (g b) key)
            (drop_while (λ a. entity_below less (g a) key) rids))
        (fun_ext (get_typed-rebuild l))

times-filter :
    (test : ℕ → Bool) (xs : List ℕ) (r : ℕ)
    → times (filter test xs) r ≡ (if test r then times xs r else 0)
times-filter test [] r = ground arith
times-filter test (x ∷ xs) r = elim (ℕ_discrete x r) [
  | yes same ↦
      subst (λ (q : ℕ). times (filter test (x ∷ xs)) q ≡ (if test q then times (x ∷ xs) q else 0))
        same (ground (arith, times-filter test xs x))
  | no other ↦ ground (arith, times-filter test xs r, other)
]

-- After any calls on a new list, with the entities changing in between, a search appends exactly the
-- RIDs of the map whose entities are equivalent to the key as they compare then, each as often as in
-- the map: where the entities' order is a strict weak one, and each change since the view was built
-- is followed by a call that marks the view as stale.
pub search_ordered-run :
    {A : Type 0} (lt : A → A → Bool)
    → Cotransitive lt
    → Asymmetric lt
    → (store : Store A) (calls : List (Call A)) (key : ℕ) (out : List ℕ)
    → (run lt (new_world lt store) calls).untold ≡ false
    → let w = run lt (new_world lt store) calls in
      (rids : List ℕ) × ((search_ordered (less_at lt w.store) w.list key out).0 ≡ out ++ rids)
      × ((r : ℕ)
          → times rids r ≡ (
              if matches (less_at lt w.store) w.list key r
              then times (collect_rids w.list []) r
              else 0))
unfolding search_ordered collect_ordered
search_ordered-run lt cotrans asym store calls key out told =
    let w = run lt (new_world lt store) calls in
    let l = w.list in
    let less = less_at lt w.store in
    let rids = sorted_rids less l in
    let split : Cotransitive less = λ a b c e. cotrans (w.store a) (w.store b) (w.store c) e in
    let sorted = sorted_rids-IsSorted less (λ a b e. asym (w.store a) (w.store b) e) l in
    (
      filter (matches less l key) rids,
      ap (◌++◌ out) (
          ap (equal_range less (rebuild less l) key) (view_lem lt store calls told)
          ∙ equal_range-rebuild less split l key rids
          ∙ equal_range-filter less split l key rids sorted.0),
      λ r.
          times-filter (matches less l key) rids r
          ∙ ap (λ (k : ℕ). if matches less l key r then k else 0) (sorted.1 r),
    )
