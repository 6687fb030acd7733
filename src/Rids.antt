-- ===== src/Rids.antt =====
-- core/RIDList.h, the entities of one type by their RID, with a view of the RIDs in the order of the
-- entities that is rebuilt when it is read after a change. The map is a list in the order of its
-- iteration. An entity is a pointer, by its address, or null; what it points to changes outside the
-- list, so the comparison of two entities is that of what stands at their addresses at the time.
pub mod Order
pub mod Calls
pub mod Search
mod Tests
use etcs.Base.{
  ℕ, suc, ◌+◌, Bool, true, false, not, List, [], ◌∷◌, ◌++◌, map, Option, none, some, ◌==◌,
  if◌then◌else◌, length,
}

pub record RidList (V : Type 0) : Type 0 where
  pub entities : List (ℕ × Option V)
  pub ordered : List ℕ
  pub ordered_stale : Bool

-- A handle's `insert` and `insert_iface` are `invoke_insert`, its `remove` is `invoke_remove`.
module _ {V : Type 0} where
  unfoldable pub new_list : RidList V
  new_list = record { entities = []; ordered = []; ordered_stale = true }

  -- `find`
  unfoldable pub find : List (ℕ × Option V) → ℕ → Option (Option V)
  find [] rid = none
  find ((key, entity) ∷ rest) rid = if key == rid then some entity else find rest rid

  -- `entities[rid] = entity`
  unfoldable pub assign : List (ℕ × Option V) → ℕ → Option V → List (ℕ × Option V)
  assign [] rid e = (rid, e) ∷ []
  assign ((key, entity) ∷ rest) rid e =
      if key == rid then (key, e) ∷ rest else (key, entity) ∷ assign rest rid e

  unfoldable pub erase : List (ℕ × Option V) → ℕ → List (ℕ × Option V)
  erase [] rid = []
  erase ((key, entity) ∷ rest) rid = if key == rid then rest else (key, entity) ∷ erase rest rid

  unfoldable pub insert : RidList V → ℕ → Option V → RidList V
  unfolding assign
  insert l rid e = record l { entities = assign l.entities rid e; ordered_stale = true }

  unfoldable pub remove : RidList V → ℕ → RidList V
  unfolding erase
  remove l rid = record l { entities = erase l.entities rid; ordered_stale = true }

  unfoldable pub reorder : RidList V → RidList V
  reorder l = record l { ordered_stale = true }

  unfoldable pub contains : RidList V → ℕ → Bool
  contains l rid = elim (find l.entities rid) [ none ↦ false | some e ↦ true ]

  unfoldable pub entity_or_null : Option (Option V) → Option V
  entity_or_null none = none
  entity_or_null (some e) = e

  unfoldable pub get_typed : RidList V → ℕ → Option V
  unfolding find entity_or_null
  get_typed l rid = entity_or_null (find l.entities rid)

  unfoldable pub count : RidList V → ℕ
  count l = length l.entities

  unfoldable pub collect_rids : RidList V → List ℕ → List ℕ
  collect_rids l out = out ++ map (λ (kv : ℕ × Option V). kv.0) l.entities

  -- A handle's `insert` of an entity that is null does nothing.
  unfoldable pub invoke_insert : RidList V → ℕ → Option V → RidList V
  unfolding insert
  invoke_insert l rid none = l
  invoke_insert l rid (some e) = insert l rid (some e)

  -- A handle's `remove` marks the view only if something was erased, and says so.
  unfoldable pub invoke_remove : RidList V → ℕ → Bool × RidList V
  unfolding contains remove
  invoke_remove l rid = elim (find l.entities rid) [
    | none ↦ (false, l)
    | some e ↦ (true, remove l rid)
  ]

-- The pointee's `operator<` on what stands at two addresses.
module _ {V : Type 0} (less : V → V → Bool) where
  -- Nulls come first.
  unfoldable pub comes_before : Option V → Option V → Bool
  comes_before none none = false
  comes_before none (some b) = true
  comes_before (some a) none = false
  comes_before (some a) (some b) = less a b

  unfoldable pub before : RidList V → ℕ → ℕ → Bool
  before l a b = comes_before (get_typed l a) (get_typed l b)

-- `std::stable_sort` by a comparison, as the insertions that give its result.
unfoldable pub place : (ℕ → ℕ → Bool) → ℕ → List ℕ → List ℕ
place less x [] = x ∷ []
place less x (y ∷ ys) = if less y x then y ∷ place less x ys else x ∷ y ∷ ys

unfoldable pub stable_sort : (ℕ → ℕ → Bool) → List ℕ → List ℕ
unfolding place
stable_sort less [] = []
stable_sort less (x ∷ xs) = place less x (stable_sort less xs)

module _ {V : Type 0} (less : V → V → Bool) where
  unfoldable pub sorted_rids : RidList V → List ℕ
  unfolding stable_sort collect_rids
  sorted_rids l = stable_sort (before less l) (collect_rids l [])

  unfoldable pub rebuild : RidList V → RidList V
  unfolding sorted_rids
  rebuild l =
      if l.ordered_stale then record l { ordered = sorted_rids l; ordered_stale = false } else l

  unfoldable pub collect_ordered : RidList V → List ℕ → List ℕ × RidList V
  collect_ordered l out = (out ++ (rebuild l).ordered, rebuild l)

-- `std::lower_bound` and `std::upper_bound` give the first place where a test fails or holds; the
-- range is partitioned by the test, and then the first such place is the one that bisection finds.
unfoldable pub drop_while : (ℕ → Bool) → List ℕ → List ℕ
drop_while test [] = []
drop_while test (x ∷ xs) = if test x then drop_while test xs else x ∷ xs

unfoldable pub take_until : (ℕ → Bool) → List ℕ → List ℕ
take_until test [] = []
take_until test (x ∷ xs) = if test x then [] else x ∷ take_until test xs

module _ {V : Type 0} (less : V → V → Bool) where
  unfoldable pub entity_below : Option V → V → Bool
  entity_below none key = true
  entity_below (some a) key = less a key

  unfoldable pub entity_above : Option V → V → Bool
  entity_above none key = false
  entity_above (some a) key = less key a

  unfoldable pub equal_range : RidList V → V → List ℕ → List ℕ
  unfolding drop_while take_until
  equal_range l key rids =
      take_until (λ b. entity_above (get_typed l b) key)
        (drop_while (λ a. entity_below (get_typed l a) key) rids)

  unfoldable pub search_ordered : RidList V → V → List ℕ → List ℕ × RidList V
  unfolding equal_range
  search_ordered l key out =
      let (ord, l2) = collect_ordered less l [] in (out ++ equal_range l2 key ord, l2)

  unfoldable pub search_for : RidList V → Option V → List ℕ → List ℕ × RidList V
  search_for l none out = (out, l)
  search_for l (some e) out = search_ordered l e out

  unfoldable pub search_ordered_by : RidList V → ℕ → List ℕ → List ℕ × RidList V
  unfolding search_for
  search_ordered_by l exemplar out = search_for l (get_typed l exemplar) out
