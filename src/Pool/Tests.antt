-- ===== src/Pool/Tests.antt =====
-- Runs of the pool with two pages to a slab, and where its theorems apply.
use etcs.Base.{ℕ, ◌/◌, ◌≡◌, refl, arith, false, [], ◌∷◌, Option, none, some}
use etcs.Base.Maps.{update}
use etcs.Pool.{
  Pool, huge_slab_size, acquire_child_page, release_child_page, give_to, resolve_slab, owner_of,
  take_or_mint, take_page, mint_slab, pop_slab, pop_page, give_back, unmap_slab, push_page,
}
use etcs.Pool.Reuse.{slab, acquire_child_page-release_child_page}
use etcs.Pool.Counts.{IsValid, hold_update, one_live, occurs_ne}

abbrev empty_pool : Pool
empty_pool = record {
  available_slabs = [];
  slabs_by_base = λ b. none;
  page_registry = λ p. none;
  freed = [];
}

empty_pool-IsValid : IsValid (huge_slab_size / 1048576) empty_pool
empty_pool-IsValid b = refl

abbrev one_taken : Option (ℕ × Pool)
one_taken = acquire_child_page 1048576 4194304 4096 false empty_pool

abbrev pool_of : Option (ℕ × Pool) → Pool
pool_of none = empty_pool
pool_of (some (page, p)) = p

abbrev page_of : Option (ℕ × Pool) → ℕ
page_of none = 0
page_of (some (page, p)) = page

page_run : page_of one_taken ≡ 5242880
unfolding acquire_child_page take_or_mint take_page mint_slab pop_slab update pop_page
page_run = refl

-- The only live page takes its slab's mapping with it.
freed_run :
    (release_child_page 1048576 5242880 1048576 (pool_of one_taken)).freed ≡ (4194304, 2097152) ∷ []
unfolding acquire_child_page release_child_page give_to resolve_slab owner_of take_or_mint take_page
    mint_slab pop_slab update pop_page give_back unmap_slab push_page
freed_run = refl

abbrev two_pages : Pool
two_pages = record {
  available_slabs = 4194304 ∷ [];
  slabs_by_base =
      update (λ b. none) 4194304
        (some (record { base = 4194304; free_slots = 4194304 ∷ []; live_pages = 1 }));
  page_registry = update (update (λ b. none) 4194304 (some 4194304)) 5242880 (some 4194304);
  freed = [];
}

two_pages-IsValid : IsValid 2 two_pages
two_pages-IsValid =
    hold_update 2 one_live one_live (λ b. none) [] (4194304 ∷ []) 4194304 _ (λ b. refl)
      (λ c ne. refl) (λ c ne. occurs_ne 4194304 c [] ne) (refl, refl, omega arith, refl)

-- Four pages to a slab, one of them free.
abbrev three_out : Pool
three_out = record {
  available_slabs = 4194304 ∷ [];
  slabs_by_base = update (λ b. none) 4194304 (some (slab 4194304 (4194304 ∷ []) 3));
  page_registry = update (λ b. none) 5242880 (some 4194304);
  freed = [];
}

owner_run : three_out.page_registry 5242880 ≡ some 4194304
unfolding update
owner_run = refl

slab_run : three_out.slabs_by_base 4194304 ≡ some (slab 4194304 (4194304 ∷ []) 3)
unfolding update
slab_run = refl

acquire_child_page-release_child_page_example :
    acquire_child_page 524288 0 4096 false (release_child_page 524288 5242880 524288 three_out)
    ≡ some (5242880, three_out)
acquire_child_page-release_child_page_example =
    acquire_child_page-release_child_page 524288 0 5242880 524288 4096 three_out 4194304 3
      (4194304 ∷ []) (omega arith) (omega arith) owner_run slab_run (omega arith) ([], refl)
