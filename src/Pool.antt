-- ===== src/Pool.antt =====
-- core/MemoryArena.h, the global arena's pool of pages: slabs that the operating system maps are
-- carved into pages for the child arenas. A slab is named by its base address, and the system's
-- `allocatePage` is a parameter of minting; `freePage` is recorded in the list of freed mappings.
pub mod Counts
pub mod Steps
pub mod Reuse
mod Tests
use etcs.Base.{
  ℕ, zero, suc, ◌+◌, ◌-◌, ◌*◌, ◌/◌, Bool, true, false, ◌||◌, List, [], ◌∷◌, Option, none, some, ltb,
  ◌==◌, if◌then◌else◌,
}
use etcs.Base.Maps.{update}

-- `free_slots` with its `free_count` is a stack; its top is the head.
pub record Slab : Type 0 where
  pub base : ℕ
  pub free_slots : List ℕ
  pub live_pages : ℕ

-- The back of `available_slabs_` is the head of the list.
pub record Pool : Type 0 where
  pub available_slabs : List ℕ
  pub slabs_by_base : ℕ → Option Slab
  pub page_registry : ℕ → Option ℕ
  pub freed : List (ℕ × ℕ)

-- `kHugeSlabSize`
abbrev pub huge_slab_size : ℕ
huge_slab_size = 2097152

unfoldable pub put_slab : Pool → Slab → Pool
put_slab p s = record p { slabs_by_base = update p.slabs_by_base s.base (some s) }

-- The loop of `mintSlabLocked` over the pages from a given index, pushing and registering each.
unfoldable pub carve : ℕ → ℕ → ℕ → ℕ → List ℕ → List ℕ
carve base page_size i zero slots = slots
carve base page_size i (suc n) slots =
    carve base page_size (suc i) n ((base + i * page_size) ∷ slots)

unfoldable pub register : (ℕ → Option ℕ) → ℕ → ℕ → Option ℕ → ℕ → (ℕ → Option ℕ)
register registry base page_size owner zero = registry
register registry base page_size owner (suc n) =
    update (register registry base page_size owner n) (base + n * page_size) owner

unfoldable pub mint_slab : ℕ → ℕ → ℕ → Pool → Pool
unfolding carve register put_slab
mint_slab page_size page_count base p =
    put_slab
      (record p {
        available_slabs = base ∷ p.available_slabs;
        page_registry = register p.page_registry base page_size (some base) page_count;
      })
      (record { base = base; free_slots = carve base page_size 0 page_count []; live_pages = 0 })

-- `*it = back(); pop_back()` at the first place where the slab stands, in a list with its back first.
unfoldable pub replace_first : List ℕ → ℕ → ℕ → List ℕ
replace_first [] b back = []
replace_first (x ∷ xs) b back = if x == b then back ∷ xs else x ∷ replace_first xs b back

unfoldable pub mem : List ℕ → ℕ → Bool
mem [] b = false
mem (x ∷ xs) b = x == b || mem xs b

unfoldable pub swap_out : List ℕ → ℕ → List ℕ
unfolding replace_first mem
swap_out [] b = []
swap_out (back ∷ xs) b =
    if back == b then xs else if mem xs b then replace_first xs b back else back ∷ xs

-- `unmapSlabLocked`
unfoldable pub unmap_slab : ℕ → ℕ → Pool → Slab → Pool
unfolding swap_out register
unmap_slab page_size page_count p s = record p {
  available_slabs = swap_out p.available_slabs s.base;
  page_registry = register p.page_registry s.base page_size none page_count;
  slabs_by_base = update p.slabs_by_base s.base none;
  freed = (s.base, huge_slab_size) ∷ p.freed;
}

-- The page on top of the slab's stack is handed out; a slab that this empties leaves the list.
unfoldable pub pop_page : Pool → ℕ → List ℕ → Slab → List ℕ → Option (ℕ × Pool)
pop_page p b rest s [] = none
pop_page p b rest s (page ∷ []) = some (
  page,
  put_slab (record p { available_slabs = rest })
      (record s { free_slots = []; live_pages = suc s.live_pages }),
)
pop_page p b rest s (page ∷ next ∷ slots) =
    some (page, put_slab p (record s { free_slots = next ∷ slots; live_pages = suc s.live_pages }))

unfoldable pub pop_slab : Pool → ℕ → List ℕ → Option Slab → Option (ℕ × Pool)
pop_slab p b rest none = none
pop_slab p b rest (some s) = pop_page p b rest s s.free_slots

unfoldable pub take_page : Pool → List ℕ → Option (ℕ × Pool)
take_page p [] = none
take_page p (b ∷ rest) = pop_slab p b rest (p.slabs_by_base b)

-- `fresh` is the address that `allocatePage` gives when a slab is minted.
unfoldable pub take_or_mint : ℕ → ℕ → ℕ → Pool → List ℕ → Option (ℕ × Pool)
take_or_mint page_size page_count fresh p [] =
    let minted = mint_slab page_size page_count fresh p in take_page minted minted.available_slabs
take_or_mint page_size page_count fresh p (b ∷ rest) = take_page p (b ∷ rest)

-- `acquireChildPage`: a large or dedicated request is a mapping of its own. `none` is a state that
-- the code takes to be impossible: a listed slab that is missing or has no free page.
unfoldable pub acquire_child_page : ℕ → ℕ → ℕ → Bool → Pool → Option (ℕ × Pool)
acquire_child_page page_size fresh requested want_dedicated p =
    let carved = take_or_mint page_size (huge_slab_size / page_size) fresh p p.available_slabs in
    if want_dedicated || ltb page_size requested then some (fresh, p) else carved

-- The slab gets its page back, and is listed again if it had none. A slab has a live page here, so
-- that its count does not go below zero.
unfoldable pub push_page : Pool → Slab → ℕ → List ℕ → Pool
push_page p s ptr [] =
    put_slab (record p { available_slabs = s.base ∷ p.available_slabs })
      (record s { free_slots = ptr ∷ []; live_pages = s.live_pages - 1 })
push_page p s ptr (slot ∷ slots) =
    put_slab p (record s { free_slots = ptr ∷ slot ∷ slots; live_pages = s.live_pages - 1 })

-- The last live page to come back takes the slab's mapping with it.
unfoldable pub give_back : ℕ → ℕ → Pool → ℕ → Slab → Pool
give_back page_size page_count p ptr s =
    let q = push_page p s ptr s.free_slots in
    if s.live_pages == 1 then unmap_slab page_size page_count q s else q

unfoldable pub give_to : ℕ → ℕ → Pool → ℕ → Option Slab → Pool
give_to page_size page_count p ptr none = p
give_to page_size page_count p ptr (some s) = give_back page_size page_count p ptr s

unfoldable pub owner_of : Pool → Option ℕ → Option Slab
owner_of p none = none
owner_of p (some b) = p.slabs_by_base b

-- `resolveSlabLocked`
unfoldable pub resolve_slab : Pool → ℕ → Option Slab
resolve_slab p ptr = owner_of p (p.page_registry ptr)

-- `releaseChildPage`: a page that no slab owns is dropped.
unfoldable pub release_child_page : ℕ → ℕ → ℕ → Pool → Pool
release_child_page page_size ptr size p =
    let returned = give_to page_size (huge_slab_size / page_size) p ptr (resolve_slab p ptr) in
    if ltb page_size size then record p { freed = (ptr, size) ∷ p.freed } else returned
