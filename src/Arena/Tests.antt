-- ===== src/Arena/Tests.antt =====
-- Runs of the bump allocator and of its free lists, and where their theorems apply.
use etcs.Base.{
  ℕ, zero, suc, ◌+◌, ◌*◌, ◌^◌, ◌≤◌, ◌%◌, ◌≡◌, ◌≢◌, refl, arith, Bool, true, false, [], ◌∷◌, some,
  ◌⊎◌, get_elem?, subst,
}
use etcs.Arena.{
  Chunk, MemoryArena, allocated, bad_alloc, allocate_raw, allocate, release_to_free_list, served,
  allocate_or_grow, serve_or, bump_current, bump_at, ensure_current, ensure_chunk, place_in, bump,
  get_page, allocate_new_chunk, append_chunk,
}
use etcs.Base.Align.{align_up}
use etcs.Base.Memory.{size_mod}
use etcs.Arena.Blocks.{AreUsed, AreMappings, IsServed}
use etcs.Arena.FreeList.{allocate-release_to_free_list}
use etcs.Arena.Raw.{allocate_raw-IsServed}
use etcs.Arena.Serves.{allocate_raw_never}

-- Pages of 4096 bytes, numbered by the world.
abbrev page : ℕ → Bool → ℕ → ℕ × ℕ
page size huge w = (4096 + w % 8 * 4096, suc w)

abbrev one_chunk : MemoryArena
one_chunk = record {
  is_child = false;
  chunks = record { buffer = 4096; size = 4096; used = 10; pooled = false } ∷ [];
  current = 0;
  chunk_size = 4096;
  use_huge_pages = false;
  dtors = [];
  free_blocks = λ s k. [];
  is_teardown = false;
}

raw_run : (allocate_raw page page 40 8 one_chunk 1).outcome ≡ allocated 4112
unfolding allocate_raw allocate_or_grow serve_or bump_current bump_at ensure_current ensure_chunk
    place_in bump align_up
raw_run = refl

grow_run : (allocate_raw page page 5000 8 one_chunk 1).outcome ≡ allocated 8192
unfolding allocate_raw allocate_or_grow serve_or bump_current bump_at ensure_current ensure_chunk
    place_in bump align_up allocate_new_chunk append_chunk get_page
grow_run = refl

-- A page that is no more aligned than the system's gives no room for a block aligned beyond it.
misaligned_run : (allocate_raw page page 8192 8192 one_chunk 0).outcome ≡ bad_alloc
unfolding allocate_raw allocate_or_grow serve_or bump_current bump_at ensure_current ensure_chunk
    place_in bump align_up allocate_new_chunk append_chunk get_page
misaligned_run = refl

allocate-release_to_free_list_example :
    allocate page page 40 8 (release_to_free_list one_chunk 5000 40 8) 1
    ≡ served (allocated 5000) one_chunk 1
allocate-release_to_free_list_example =
    allocate-release_to_free_list page page one_chunk 1 5000 40 8 (omega arith)

one_used : AreUsed one_chunk.chunks
one_used zero c h =
    let same : record { buffer = 4096; size = 4096; used = 10; pooled = false } ≡ c = cc in
    subst (λ (d : Chunk). d.used ≤ d.size) same (omega arith)
one_used (suc i) c h = absurd (cc)

single_maps : (a : ℕ) (c : Chunk) → c.buffer + c.size + a ≤ size_mod → AreMappings a (c ∷ [])
single_maps a c h = record { in_range = ranges; apart = beside }
  where
    ranges : (i : ℕ) (d : Chunk) → get_elem? (c ∷ []) i ≡ some d → d.buffer + d.size + a ≤ size_mod
    ranges zero d e =
        let same : c ≡ d = cc in subst (λ (x : Chunk). x.buffer + x.size + a ≤ size_mod) same h
    ranges (suc i) d e = absurd (cc)

    beside :
        (i j : ℕ) (d d2 : Chunk)
        → i ≢ j
        → get_elem? (c ∷ []) i ≡ some d
        → get_elem? (c ∷ []) j ≡ some d2
        → (d.buffer + d.size ≤ d2.buffer) ⊎ (d2.buffer + d2.size ≤ d.buffer)
    beside zero zero d d2 ne e e2 = absurd (ne refl)
    beside zero (suc j) d d2 ne e e2 = absurd (cc)
    beside (suc i) j d d2 ne e e2 = absurd (cc)

one_maps : AreMappings (2 ^ 3) (allocate_raw page page 40 (2 ^ 3) one_chunk 1).arena.chunks
unfolding allocate_raw allocate_or_grow serve_or bump_current bump_at ensure_current ensure_chunk
    place_in bump align_up
one_maps =
    single_maps (2 ^ 3) (record { buffer = 4096; size = 4096; used = 56; pooled = false })
      (omega arith)

one_served : (allocate_raw page page 40 (2 ^ 3) one_chunk 1).outcome ≡ allocated 4112
one_served = raw_run

allocate_raw-IsServed_example :
    IsServed 40
      (2 ^ 3)
      4112
      one_chunk.chunks
      (allocate_raw page page 40 (2 ^ 3) one_chunk 1).arena.chunks
allocate_raw-IsServed_example =
    allocate_raw-IsServed page page 40 61 3 refl one_chunk 1 4112 one_used one_served one_maps

page_aligned :
    (b : Bool) (sz : ℕ) (huge : Bool) (w : ℕ) → (get_page page page b sz huge w).0 % 2 ^ 3 ≡ 0
unfolding get_page
page_aligned true sz huge w = grind arith
page_aligned false sz huge w = grind arith

page_in_range :
    (b : Bool) (sz : ℕ) (huge : Bool) (w : ℕ)
    → (get_page page page b sz huge w).0 + 2 ^ 3 ≤ size_mod
unfolding get_page
page_in_range true sz huge w = grind arith
page_in_range false sz huge w = grind arith

allocate_raw_never_example : (allocate_raw page page 5000 (2 ^ 3) one_chunk 1).outcome ≢ bad_alloc
allocate_raw_never_example =
    allocate_raw_never page page 61 3 refl page_aligned page_in_range 5000 52 12 one_chunk 1 refl
      refl (omega arith)
