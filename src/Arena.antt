-- ===== src/Arena.antt =====
-- core/MemoryArena.h, the bump allocator of one arena with its free lists, and
-- core/ArenaAllocator.h on top of it. Addresses are numbers. Where the bytes of a chunk come from,
-- the global arena's pool or the operating system, is a parameter.
pub mod FreeList
pub mod Placement
pub mod Blocks
pub mod Raw
pub mod Serves
mod Tests
use etcs.Base.{
  ℕ, zero, suc, ◌+◌, ◌-◌, ◌*◌, ◌/◌, max, ◌≡◌, Bool, true, false, ◌&&◌, List, [], ◌∷◌, ◌++◌, map,
  Option, none, some, length, get_elem?, set, ltb, ◌==◌, if◌then◌else◌,
}
use etcs.Base.Align.{align_up}
use etcs.Base.Maps.{update}

pub record Chunk : Type 0 where
  pub buffer : ℕ
  pub size : ℕ
  pub used : ℕ
  pub pooled : Bool

-- A `DestructorRecord` where it stands, and the object that it destroys.
pub record DestructorRecord : Type 0 where
  pub place : ℕ
  pub ptr : ℕ

-- The chunks stand in the order of the linked list, so the last is `tail_`; `current_` is an index,
-- which names no chunk while there is none. A free block is the head of its key's stack.
pub record MemoryArena : Type 0 where
  pub is_child : Bool
  pub chunks : List Chunk
  pub current : ℕ
  pub chunk_size : ℕ
  pub use_huge_pages : Bool
  pub dtors : List DestructorRecord
  pub free_blocks : ℕ → ℕ → List ℕ
  pub is_teardown : Bool

pub data Outcome : Type 0 where
  allocated : ℕ → Outcome
  after_teardown : Outcome
  bad_alloc : Outcome

unfoldable pub set_free_blocks : MemoryArena → ℕ → ℕ → List ℕ → MemoryArena
set_free_blocks a size alignment blocks = record a {
  free_blocks = update a.free_blocks size (update (a.free_blocks size) alignment blocks);
}

unfoldable pub pop_block : MemoryArena → ℕ → ℕ → List ℕ → Option ℕ × MemoryArena
pop_block a size alignment [] = (none, a)
pop_block a size alignment (mem ∷ rest) = (some mem, set_free_blocks a size alignment rest)

-- `tryAcquireFromFreeListLocked`
unfoldable pub try_acquire_from_free_list : MemoryArena → ℕ → ℕ → Option ℕ × MemoryArena
unfolding pop_block set_free_blocks
try_acquire_from_free_list a size alignment =
    pop_block a size alignment (a.free_blocks size alignment)

-- `releaseToFreeList`; the null pointer is 0.
unfoldable pub release_to_free_list : MemoryArena → ℕ → ℕ → ℕ → MemoryArena
unfolding set_free_blocks
release_to_free_list a ptr size alignment =
    if ptr == 0 then a else set_free_blocks a size alignment (ptr ∷ a.free_blocks size alignment)

-- `ArenaAllocator::deallocate`; null is `none`.
unfoldable pub deallocate : MemoryArena → Option ℕ → ℕ → ℕ → MemoryArena
unfolding release_to_free_list
deallocate a none size alignment = a
deallocate a (some ptr) size alignment = release_to_free_list a ptr size alignment

-- `allocateRawLocked` in one chunk: the block's address and the chunk after it, if it fits.
unfoldable pub bump : Chunk → ℕ → ℕ → Option (ℕ × Chunk)
bump c size alignment =
    let offset = align_up (c.buffer + c.used) alignment - c.buffer in
    if ltb c.size (offset + size)
    then none
    else some (c.buffer + offset, record c { used = offset + size })

unfoldable pub place_in : MemoryArena → Option (ℕ × Chunk) → Option (ℕ × MemoryArena)
place_in a none = none
place_in a (some (ptr, c)) = some (ptr, record a { chunks = set a.chunks a.current c })

unfoldable pub bump_at : MemoryArena → ℕ → ℕ → Option Chunk → Option (ℕ × MemoryArena)
bump_at a size alignment none = none
bump_at a size alignment (some c) = place_in a (bump c size alignment)

-- The current chunk's turn.
unfoldable pub bump_current : MemoryArena → ℕ → ℕ → Option (ℕ × MemoryArena)
bump_current a size alignment = bump_at a size alignment (get_elem? a.chunks a.current)

-- `pickChunkSize`
unfoldable pub pick_chunk_size : ℕ → ℕ → ℕ → ℕ
pick_chunk_size huge_page_size page_size min_size =
    let base = if ltb 0 huge_page_size then huge_page_size else page_size in
    base * max ((min_size + base - 1) / base) 1

unfoldable pub rewind : Chunk → Chunk
rewind c = record c { used = 0 }

-- `reset`, after the destructors have run: every chunk is empty again.
unfoldable pub reset : MemoryArena → MemoryArena
unfolding rewind
reset a =
    if a.is_teardown
    then a
    else record a { dtors = []; free_blocks = λ s k. []; chunks = map rewind a.chunks; current = 0 }

-- What an allocation comes to, with the arena and the source of pages after it.
pub record Served (W : Type 0) : Type 0 where
  pub outcome : Outcome
  pub arena : MemoryArena
  pub world : W

abbrev pub served : {W : Type 0} → Outcome → MemoryArena → W → Served W
served outcome a w = record { outcome = outcome; arena = a; world = w }

abbrev pub new_chunk : ℕ → ℕ → Bool → Chunk
new_chunk buffer size pooled = record { buffer = buffer; size = size; used = 0; pooled = pooled }

unfoldable pub serve_or : {W : Type 0} → Option (ℕ × MemoryArena) → W → Served W → Served W
serve_or (some (ptr, a)) w fallback = served (allocated ptr) a w
serve_or none w fallback = fallback

unfoldable pub append_chunk : MemoryArena → Chunk → MemoryArena
append_chunk a c = record a { chunks = a.chunks ++ (c ∷ []); current = length a.chunks }

unfoldable pub push_dtor : MemoryArena → ℕ → ℕ → MemoryArena
push_dtor a mem ptr = record a { dtors = record { place = mem; ptr = ptr } ∷ a.dtors }

-- `acquireChildPage` of the global arena, and the operating system's `allocatePage`.
module _ {W : Type 0} (acquire_child_page allocate_page : ℕ → Bool → W → ℕ × W) where
  unfoldable pub get_page : Bool → ℕ → Bool → W → ℕ × W
  get_page is_child size huge w =
      if is_child then acquire_child_page size huge w else allocate_page size huge w

  -- `allocateNewChunk`
  unfoldable pub allocate_new_chunk : ℕ → MemoryArena → W → MemoryArena × W
  unfolding append_chunk
  allocate_new_chunk min_size a w =
      let sz = align_up min_size a.chunk_size in
      let page = get_page a.is_child sz a.use_huge_pages w in
      (append_chunk a (new_chunk page.0 sz a.is_child), page.1)

  unfoldable pub ensure_chunk : ℕ → MemoryArena → W → Option Chunk → MemoryArena × W
  ensure_chunk size a w none = allocate_new_chunk size a w
  ensure_chunk size a w (some c) = (a, w)

  -- `if (!current_) allocateNewChunk(size)`
  unfoldable pub ensure_current : ℕ → MemoryArena → W → MemoryArena × W
  ensure_current size a w = ensure_chunk size a w (get_elem? a.chunks a.current)

  -- Where the current chunk has no room a new one is asked for, and kept even if it has none either.
  unfoldable pub allocate_or_grow : ℕ → ℕ → MemoryArena → W → Served W
  allocate_or_grow size alignment a w =
      let grown = allocate_new_chunk size a w in
      serve_or (bump_current a size alignment) w
        (serve_or (bump_current grown.0 size alignment) grown.1 (served bad_alloc grown.0 grown.1))

  -- `allocateRawLocked`
  unfoldable pub allocate_raw : ℕ → ℕ → MemoryArena → W → Served W
  allocate_raw size alignment a w =
      let ready = ensure_current size a w in
      if a.is_teardown
      then served after_teardown a w
      else allocate_or_grow size alignment ready.0 ready.1

  unfoldable pub or_raw : ℕ → ℕ → W → Option ℕ × MemoryArena → Served W
  or_raw size alignment w (some mem, a) = served (allocated mem) a w
  or_raw size alignment w (none, a) = allocate_raw size alignment a w

  -- `ArenaAllocator::allocate`, which asks the free list first.
  unfoldable pub allocate : ℕ → ℕ → MemoryArena → W → Served W
  unfolding or_raw
  allocate size alignment a w =
      or_raw size alignment w (try_acquire_from_free_list a size alignment)

  -- `registerDtorLocked`: a record of five pointers, which goes the same way.
  unfoldable pub register_dtor : ℕ → MemoryArena → W → Served W
  unfolding push_dtor
  register_dtor ptr a w =
      let record_block = allocate 40 8 a w in
      elim record_block.outcome [
        | allocated mem ↦
            served (allocated mem) (push_dtor record_block.arena mem ptr) record_block.world
        | _ ↦ record_block
      ]

  -- The constructor, once the page sizes are known.
  unfoldable pub new_arena : ℕ → ℕ → ℕ → Bool → Bool → W → MemoryArena × W
  unfolding pick_chunk_size
  new_arena page_size huge_page_size initial_size performance is_child w =
      let chunk_size =
        if performance
        then pick_chunk_size huge_page_size page_size initial_size
        else align_up (max initial_size page_size) page_size in
      allocate_new_chunk chunk_size
        (record {
          is_child = is_child;
          chunks = [];
          current = 0;
          chunk_size = chunk_size;
          use_huge_pages = performance && ltb 0 huge_page_size;
          dtors = [];
          free_blocks = λ s k. [];
          is_teardown = false;
        })
        w
