-- ===== src/Rids/Calls.antt =====
-- core/RIDList.h, what a list answers after any calls, with the entities changing between them.
use etcs.Base.{
  ℕ, ◌≡◌, refl, sym, ap, ◌∙◌, subst, Bool, false, not, List, [], ◌∷◌, ◌++◌, Option, if◌then◌else◌,
  Bool-cases, inl, inr,
}
use etcs.Rids.{
  RidList, new_list, insert, remove, reorder, before, sorted_rids, rebuild, collect_ordered,
  collect_rids, get_typed,
}
use etcs.Rids.Order.{IsSorted, Asymmetric, times, sorted_rids-IsSorted}

-- What stands at each address.
abbrev pub Store : Type 0 → Type 0
Store A = ℕ → A

-- A call on the list, or a change of any entities in memory.
pub data Call (A : Type 0) : Type 0 where
  insertion : ℕ → Option ℕ → Call A
  removal : ℕ → Call A
  reordering : Call A
  reading : Call A
  changing : Store A → Call A

-- The list, the store, and whether an entity may have changed since the view was built, with the
-- view not marked as stale.
pub record World (A : Type 0) : Type 0 where
  pub list : RidList ℕ
  pub store : Store A
  pub untold : Bool

module _ {A : Type 0} (lt : A → A → Bool) where
  -- `operator<` through two pointers.
  abbrev pub less_at : Store A → ℕ → ℕ → Bool
  less_at store a b = lt (store a) (store b)

  abbrev pub step : World A → Call A → World A
  step w (insertion rid e) = record w { list = insert w.list rid e; untold = false }
  step w (removal rid) = record w { list = remove w.list rid; untold = false }
  step w reordering = record w { list = reorder w.list; untold = false }
  step w reading = record w { list = (collect_ordered (less_at w.store) w.list []).1 }
  step w (changing store) = record w { store = store; untold = not w.list.ordered_stale }

  abbrev pub run : World A → List (Call A) → World A
  run w [] = w
  run w (c ∷ calls) = run (step w c) calls

  -- A view that is neither marked stale nor out of date untold is the sorted one.
  abbrev pub IsFresh : World A → Type 0
  IsFresh w =
      w.untold ≡ false
      → w.list.ordered_stale ≡ false
      → w.list.ordered ≡ sorted_rids (less_at w.store) w.list

  rebuild_lem :
      (w : World A)
      → IsFresh w
      → w.untold ≡ false
      → ((rebuild (less_at w.store) w.list).ordered ≡ sorted_rids (less_at w.store) w.list)
        × (sorted_rids (less_at w.store) (rebuild (less_at w.store) w.list)
            ≡ sorted_rids (less_at w.store) w.list)
  unfolding rebuild sorted_rids before get_typed
  rebuild_lem w fresh told = elim (Bool-cases w.list.ordered_stale) [
    | inl stale ↦
        subst (λ (b : Bool). Right (if b then renewed else w.list)) (sym stale) (refl, refl)
    | inr kept ↦
        subst (λ (b : Bool). Right (if b then renewed else w.list)) (sym kept)
          (fresh told kept, refl)
  ]
    where
      renewed : RidList ℕ
      renewed = record w.list {
        ordered = sorted_rids (less_at w.store) w.list;
        ordered_stale = false;
      }

      Right : RidList ℕ → Type 0
      Right m =
          (m.ordered ≡ sorted_rids (less_at w.store) w.list)
          × (sorted_rids (less_at w.store) m ≡ sorted_rids (less_at w.store) w.list)

  step-IsFresh : (w : World A) (c : Call A) → IsFresh w → IsFresh (step w c)
  unfolding insert remove reorder collect_ordered
  step-IsFresh w (insertion rid e) fresh = λ t h. absurd (cc)
  step-IsFresh w (removal rid) fresh = λ t h. absurd (cc)
  step-IsFresh w reordering fresh = λ t h. absurd (cc)
  step-IsFresh w reading fresh = λ t h. let (view, same) = rebuild_lem w fresh t in view ∙ sym same
  step-IsFresh w (changing store) fresh = λ t h. absurd (cc)

  run-IsFresh : (w : World A) (calls : List (Call A)) → IsFresh w → IsFresh (run w calls)
  run-IsFresh w [] fresh = fresh
  run-IsFresh w (c ∷ calls) fresh = run-IsFresh (step w c) calls (step-IsFresh w c fresh)

  abbrev pub new_world : Store A → World A
  new_world store = record { list = new_list; store = store; untold = false }

  new_world-IsFresh : (store : Store A) → IsFresh (new_world store)
  unfolding new_list
  new_world-IsFresh store = λ t h. absurd (cc)

  -- The view after any calls that leave no change untold.
  pub view_lem :
      (store : Store A) (calls : List (Call A))
      → (run (new_world store) calls).untold ≡ false
      → let w = run (new_world store) calls in
        (rebuild (less_at w.store) w.list).ordered ≡ sorted_rids (less_at w.store) w.list
  view_lem store calls told =
      let w = run (new_world store) calls in
      (rebuild_lem w (run-IsFresh (new_world store) calls (new_world-IsFresh store)) told).0

  -- After any calls on a new list, with the entities changing in between, collecting appends the
  -- RIDs that the map holds then, each as often as there, with no entity strictly before its
  -- predecessor as they compare then: where the order is asymmetric, and each change since the view
  -- was built is followed by a call that marks the view as stale.
  pub collect_ordered-run :
      (asym : Asymmetric lt) (store : Store A) (calls : List (Call A)) (out : List ℕ)
      → (run (new_world store) calls).untold ≡ false
      → let w = run (new_world store) calls in
        (rids : List ℕ) × ((collect_ordered (less_at w.store) w.list out).0 ≡ out ++ rids)
        × IsSorted (before (less_at w.store) w.list) rids
        × ((r : ℕ) → times rids r ≡ times (collect_rids w.list []) r)
  unfolding collect_ordered
  collect_ordered-run asym store calls out told =
      let w = run (new_world store) calls in
      let less = less_at w.store in
      let sorted = sorted_rids-IsSorted less (λ a b e. asym (w.store a) (w.store b) e) w.list in
      (sorted_rids less w.list, ap (◌++◌ out) (view_lem store calls told), sorted.0, sorted.1)
