-- ===== src/Arena/Serves.antt =====
-- core/MemoryArena.h, when `allocateRawLocked` does find room.
use etcs.Base.{
  ℕ, ◌+◌, ◌-◌, ◌^◌, ◌%◌, ◌≤◌, ◌<◌, ◌≡◌, ◌≢◌, refl, sym, ap, subst, ◌∙◌, arith, Bool, true, false,
  List, [], ◌∷◌, ◌++◌, Option, none, some, ltb, get_elem?, length, if◌then◌else◌,
}
use etcs.Base.Align.{align_up, align_up-IsNextMultiple}
use etcs.Base.Memory.{size_mod}
use etcs.Arena.{
  Chunk, MemoryArena, Served, bump, bump_at, place_in, serve_or, served, bad_alloc, after_teardown,
  ensure_chunk, bump_current, append_chunk, new_chunk, get_page, allocate_new_chunk, ensure_current,
  allocate_or_grow, allocate_raw,
}

-- The next multiple of a number that is one already.
multiple_unique : (x a r : ℕ) → x % a ≡ 0 → r % a ≡ 0 → x ≤ r → r < x + a → r ≡ x
multiple_unique x a r h k l m = grind arith

align_up_multiple :
    (x j k : ℕ) → j + k ≡ 64 → x + 2 ^ k ≤ size_mod → x % 2 ^ k ≡ 0 → align_up x (2 ^ k) ≡ x
align_up_multiple x j k e h m =
    let next = align_up-IsNextMultiple x j k e h in
    multiple_unique x (2 ^ k) (align_up x (2 ^ k)) m next.multiple next.above next.near

fit_some :
    (full : Bool) (block : ℕ × Chunk) → full ≡ false → (if full then none else some block) ≢ none
fit_some false block h e = cc
fit_some true block h e = cc

-- A chunk with nothing in it has room for a block that is no larger and no more aligned.
bump_fresh :
    (buffer sz : ℕ) (pooled : Bool) (size j k : ℕ)
    → j + k ≡ 64
    → buffer + 2 ^ k ≤ size_mod
    → buffer % 2 ^ k ≡ 0
    → size ≤ sz
    → bump (new_chunk buffer sz pooled) size (2 ^ k) ≢ none
unfolding bump
bump_fresh buffer sz pooled size j k e range aligned h =
    let bare : buffer + 0 ≡ buffer = omega arith in
    let start : align_up (buffer + 0) (2 ^ k) ≡ buffer =
      ap (λ (x : ℕ). align_up x (2 ^ k)) bare ∙ align_up_multiple buffer j k e range aligned in
    fit_some (ltb sz (align_up (buffer + 0) (2 ^ k) - buffer + size)) _
      (fits sz (align_up (buffer + 0) (2 ^ k)) start h)
  where
    fits : (sz up : ℕ) → up ≡ buffer → size ≤ sz → ltb sz (up - buffer + size) ≡ false
    fits sz up e h = ground arith

module _ {ℓ} {A : Type ℓ} where
  get_elem?-last : (xs : List A) (x : A) → get_elem? (xs ++ (x ∷ [])) (length xs) ≡ some x
  get_elem?-last [] x = refl
  get_elem?-last (y ∷ xs) x = get_elem?-last xs x

place_in_some : (a : MemoryArena) (o : Option (ℕ × Chunk)) → o ≢ none → place_in a o ≢ none
unfolding place_in
place_in_some a none h e = h refl
place_in_some a (some (ptr, c)) h e = cc

append_chunk_some :
    (a : MemoryArena) (c : Chunk) (size alignment : ℕ)
    → bump c size alignment ≢ none
    → bump_current (append_chunk a c) size alignment ≢ none
unfolding bump_current bump_at append_chunk
append_chunk_some a c size alignment h =
    subst (λ (o : Option Chunk). bump_at (append_chunk a c) size alignment o ≢ none)
      (sym (get_elem?-last a.chunks c)) (place_in_some (append_chunk a c) (bump c size alignment) h)

module _ {W : Type 0} where
  serve_or_never :
      (o : Option (ℕ × MemoryArena)) (w : W) (fallback : Served W)
      → fallback.outcome ≢ bad_alloc
      → (serve_or o w fallback).outcome ≢ bad_alloc
  unfolding serve_or
  serve_or_never none w fallback h e = h e
  serve_or_never (some (ptr, a)) w fallback h e = cc

  serve_or_some :
      (o : Option (ℕ × MemoryArena)) (w : W) (fallback : Served W)
      → o ≢ none
      → (serve_or o w fallback).outcome ≢ bad_alloc
  unfolding serve_or
  serve_or_some none w fallback h e = h refl
  serve_or_some (some (ptr, a)) w fallback h e = cc

  live_never :
      (dead : Bool) (s t : Served W)
      → t.outcome ≢ bad_alloc
      → s.outcome ≢ bad_alloc
      → (if dead then t else s).outcome ≢ bad_alloc
  live_never true s t h k = h
  live_never false s t h k = k

module _ {W : Type 0} (acquire_child_page allocate_page : ℕ → Bool → W → ℕ × W) (j k : ℕ)
    (e : j + k ≡ 64)
    (aligned : (is_child : Bool) (sz : ℕ) (huge : Bool) (w : W)
      → (get_page acquire_child_page allocate_page is_child sz huge w).0 % 2 ^ k ≡ 0)
    (in_range : (is_child : Bool) (sz : ℕ) (huge : Bool) (w : W)
      → (get_page acquire_child_page allocate_page is_child sz huge w).0 + 2 ^ k ≤ size_mod) where
  grown_some :
      (size : ℕ) (a : MemoryArena) (w : W)
      → size ≤ align_up size a.chunk_size
      → bump_current (allocate_new_chunk acquire_child_page allocate_page size a w).0 size (2 ^ k)
        ≢ none
  unfolding allocate_new_chunk
  grown_some size a w h =
      let sz = align_up size a.chunk_size in
      let page = get_page acquire_child_page allocate_page a.is_child sz a.use_huge_pages w in
      append_chunk_some a (new_chunk page.0 sz a.is_child) size (2 ^ k) (
        bump_fresh page.0 sz a.is_child size j k e (in_range a.is_child sz a.use_huge_pages w)
          (aligned a.is_child sz a.use_huge_pages w) h)

  or_grow_never :
      (size : ℕ) (a : MemoryArena) (w : W)
      → size ≤ align_up size a.chunk_size
      → (allocate_or_grow acquire_child_page allocate_page size (2 ^ k) a w).outcome ≢ bad_alloc
  unfolding allocate_or_grow
  or_grow_never size a w h =
      let grown = allocate_new_chunk acquire_child_page allocate_page size a w in
      serve_or_never (bump_current a size (2 ^ k)) w
        (serve_or (bump_current grown.0 size (2 ^ k)) grown.1 (served bad_alloc grown.0 grown.1))
        (serve_or_some (bump_current grown.0 size (2 ^ k)) grown.1
          (served bad_alloc grown.0 grown.1) (grown_some size a w h))

  ensure_chunk_size :
      (size : ℕ) (a : MemoryArena) (w : W) (o : Option Chunk)
      → (ensure_chunk acquire_child_page allocate_page size a w o).0.chunk_size ≡ a.chunk_size
  unfolding ensure_chunk allocate_new_chunk append_chunk
  ensure_chunk_size size a w none = refl
  ensure_chunk_size size a w (some c) = refl

  -- No allocation on any arena fails for want of room, where chunks come in a power of two, the
  -- size and that power together stay within 2 ^ 64, and every page that the arena is given is
  -- aligned as the block has to be and is not at the top of the address space.
  pub allocate_raw_never :
      (size i m : ℕ) (a : MemoryArena) (w : W)
      → i + m ≡ 64
      → a.chunk_size ≡ 2 ^ m
      → size + 2 ^ m ≤ size_mod
      → (allocate_raw acquire_child_page allocate_page size (2 ^ k) a w).outcome ≢ bad_alloc
  unfolding allocate_raw ensure_current
  allocate_raw_never size i m a w whole power h =
      let ready = ensure_current acquire_child_page allocate_page size a w in
      let same = ensure_chunk_size size a w (get_elem? a.chunks a.current) ∙ power in
      live_never a.is_teardown
        (allocate_or_grow acquire_child_page allocate_page size (2 ^ k) ready.0 ready.1)
        (served after_teardown a w) (λ dead. cc)
        (or_grow_never size ready.0 ready.1 (
          subst (λ (c : ℕ). size ≤ align_up size c) (sym same)
            (align_up-IsNextMultiple size i m whole h).above))
