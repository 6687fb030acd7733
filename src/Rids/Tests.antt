-- ===== src/Rids/Tests.antt =====
-- Runs of a RID list whose entities are numbers, and where its theorems apply.
use etcs.Base.{
  ℕ, ◌≡◌, refl, arith, false, List, [], ◌∷◌, ◌++◌, none, some, ltb, ◌==◌, if◌then◌else◌,
}
use etcs.Rids.{
  new_list, insert, reorder, before, get_typed, collect_ordered, collect_rids, search_ordered,
  rebuild, comes_before,
}
use etcs.Rids.Order.{Asymmetric, IsSorted, times}
use etcs.Rids.Calls.{
  Call, World, Store, insertion, reading, changing, reordering, run, new_world, less_at,
  collect_ordered-run,
}
use etcs.Rids.Search.{Cotransitive, matches, search_ordered-run}

ltb-Asymmetric : Asymmetric ltb
ltb-Asymmetric a b h = ground arith

ltb-Cotransitive : Cotransitive ltb
ltb-Cotransitive a b c h = ground arith

abbrev memory : Store ℕ
memory address = if address == 101 then 10 else if address == 102 then 10 else 30

-- The entity of RID 9 has moved behind that of RID 4.
abbrev later : Store ℕ
later address = if address == 101 then 50 else if address == 102 then 10 else 30

abbrev calls : List (Call ℕ)
calls =
    insertion 4 (some 100)
    ∷ insertion 9 (some 101)
    ∷ reading
    ∷ insertion 2 (some 102)
    ∷ insertion 7 none
    ∷ reading
    ∷ changing later
    ∷ reordering
    ∷ []

abbrev filled : World ℕ
filled = run ltb (new_world ltb memory) calls

all_told : filled.untold ≡ false
unfolding insert reorder collect_ordered rebuild new_list
all_told = refl

collect_ordered-run_example :
    let w = run ltb (new_world ltb memory) calls in
    (rids : List ℕ) × ((collect_ordered (less_at ltb w.store) w.list (1 ∷ [])).0 ≡ (1 ∷ []) ++ rids)
    × IsSorted (before (less_at ltb w.store) w.list) rids
    × ((r : ℕ) → times rids r ≡ times (collect_rids w.list []) r)
collect_ordered-run_example = collect_ordered-run ltb ltb-Asymmetric memory calls (1 ∷ []) all_told

-- The key stands where the entity of RID 2 does.
search_ordered-run_example :
    let w = run ltb (new_world ltb memory) calls in
    (rids : List ℕ) × ((search_ordered (less_at ltb w.store) w.list 102 (1 ∷ [])).0
      ≡ (1 ∷ []) ++ rids)
    × ((r : ℕ)
        → times rids r ≡ (
            if matches (less_at ltb w.store) w.list 102 r
            then times (collect_rids w.list []) r
            else 0))
search_ordered-run_example =
    search_ordered-run ltb ltb-Cotransitive ltb-Asymmetric memory calls 102 (1 ∷ []) all_told

collect_run : (collect_ordered (less_at ltb later) filled.list []).0 ≡ 7 ∷ 2 ∷ 4 ∷ 9 ∷ []
unfolding collect_ordered rebuild insert reorder new_list before comes_before get_typed
collect_run = refl

-- Without `reorder` after the change the view is the old one.
abbrev untold_world : World ℕ
untold_world =
    run ltb (new_world ltb memory)
      (insertion 4 (some 100) ∷ insertion 9 (some 101) ∷ reading ∷ changing later ∷ [])

stale_run : (collect_ordered (less_at ltb later) untold_world.list []).0 ≡ 9 ∷ 4 ∷ []
unfolding collect_ordered rebuild insert new_list before comes_before get_typed
stale_run = refl
