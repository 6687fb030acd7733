-- ===== src/Arena/Raw.antt =====
-- core/MemoryArena.h, `allocateRawLocked` on every path that serves a block.
use etcs.Base.{
  ℕ, zero, suc, ◌+◌, ◌^◌, ◌≤◌, ◌<◌, ◌≡◌, sym, ap, subst, ◌∙◌, arith, Bool, true, false, List, [],
  ◌∷◌, ◌++◌, Option, none, some, Option-cases, ◌⊎◌, inl, inr, get_elem?, set, length,
  get_elem?-set_self, if◌then◌else◌,
}
use etcs.Arena.{
  Chunk, MemoryArena, Served, allocated, bump, bump_at, place_in, serve_or, served, ensure_chunk,
  bad_alloc, bump_current, append_chunk, allocate_new_chunk, ensure_current, after_teardown,
  allocate_or_grow, allocate_raw,
}
use etcs.Arena.Placement.{IsValid, bump-IsPlaced, bump_frame}
use etcs.Arena.Blocks.{Lies, AreUsed, AreMappings, IsServed, serve_current}

module _ {ℓ} {A : Type ℓ} where
  get_elem?_bound : (xs : List A) (i : ℕ) (x : A) → get_elem? xs i ≡ some x → i < length xs
  get_elem?_bound [] i x h = absurd (cc)
  get_elem?_bound (y ∷ ys) zero x h = omega arith
  get_elem?_bound (y ∷ ys) (suc i) x h = omega (arith, get_elem?_bound ys i x h)

  get_elem?-append :
      (xs ys : List A) (i : ℕ) (x : A) → get_elem? xs i ≡ some x → get_elem? (xs ++ ys) i ≡ some x
  get_elem?-append [] ys i x h = absurd (cc)
  get_elem?-append (y ∷ xs) ys zero x h = h
  get_elem?-append (y ∷ xs) ys (suc i) x h = get_elem?-append xs ys i x h

  get_elem?-snoc :
      (xs : List A) (y : A) (i : ℕ) (x : A)
      → get_elem? (xs ++ (y ∷ [])) i ≡ some x
      → (get_elem? xs i ≡ some x) ⊎ (y ≡ x)
  get_elem?-snoc [] y zero x h = inr (cc)
  get_elem?-snoc [] y (suc i) x h = absurd (cc)
  get_elem?-snoc (z ∷ xs) y zero x h = inl h
  get_elem?-snoc (z ∷ xs) y (suc i) x h = get_elem?-snoc xs y i x h

module _ (a : MemoryArena) (ptr : ℕ) (b : MemoryArena) where
  place_in_lem :
      (o : Option (ℕ × Chunk))
      → place_in a o ≡ some (ptr, b)
      → (c : Chunk) × (o ≡ some (ptr, c)) × (set a.chunks a.current c ≡ b.chunks)
  unfolding place_in
  place_in_lem none h = absurd (cc)
  place_in_lem (some (p, c)) h =
      let same : (p, record a { chunks = set a.chunks a.current c }) ≡ (ptr, b) = cc in
      (
        c,
        ap (λ (q : ℕ × MemoryArena). some (q.0, c)) same,
        ap (λ (q : ℕ × MemoryArena). q.1.chunks) same,
      )

module _ (size j k : ℕ) (e : j + k ≡ 64) where
  -- The block that the current chunk serves.
  bump_current-IsServed :
      (a : MemoryArena) (ptr : ℕ) (b : MemoryArena)
      → AreUsed a.chunks
      → bump_current a size (2 ^ k) ≡ some (ptr, b)
      → AreMappings (2 ^ k) b.chunks
      → IsServed size (2 ^ k) ptr a.chunks b.chunks
  unfolding bump_current bump_at
  bump_current-IsServed a ptr b used h maps = elim (Option-cases (get_elem? a.chunks a.current)) [
    | inl missing ↦ absurd (nothing missing)
    | inr (c, here) ↦ from c here
  ]
    where
      nothing : get_elem? a.chunks a.current ≡ none → ⊥
      nothing missing =
          let turn : bump_at a size (2 ^ k) none ≡ some (ptr, b) =
            ap (bump_at a size (2 ^ k)) (sym missing) ∙ h in
          cc

      from :
          (c : Chunk)
          → get_elem? a.chunks a.current ≡ some c
          → IsServed size (2 ^ k) ptr a.chunks b.chunks
      from c here =
          let turn : bump_at a size (2 ^ k) (some c) ≡ some (ptr, b) =
            ap (bump_at a size (2 ^ k)) (sym here) ∙ h in
          let (c2, fits, chunks) = place_in_lem a ptr b (bump c size (2 ^ k)) turn in
          let inside = get_elem?_bound a.chunks a.current c here in
          let (start, extent, within) = bump_frame c size (2 ^ k) ptr c2 fits in
          let set_maps = subst (AreMappings (2 ^ k)) (sym chunks) maps in
          let range =
            set_maps.in_range a.current c2 (get_elem?-set_self a.chunks a.current c2 inside) in
          let valid : IsValid (2 ^ k) c = record {
            used_le = used a.current c here;
            in_range = omega arith;
          } in
          subst (IsServed size (2 ^ k) ptr a.chunks) chunks (
            serve_current a.chunks a.current c c2 size (2 ^ k) ptr here
              (bump-IsPlaced c size j k ptr c2 e valid fits) used set_maps inside)

  -- What a successful call shows of the chunks that it started from.
  abbrev Good : {W : Type 0} → List Chunk → Served W → Type 0
  Good old s =
      (ptr : ℕ)
      → s.outcome ≡ allocated ptr
      → AreMappings (2 ^ k) s.arena.chunks
      → IsServed size (2 ^ k) ptr old s.arena.chunks

  serve_or-Good :
      {W : Type 0} (old : List Chunk) (o : Option (ℕ × MemoryArena)) (w : W) (fallback : Served W)
      → ((ptr : ℕ) (b : MemoryArena)
          → o ≡ some (ptr, b)
          → AreMappings (2 ^ k) b.chunks
          → IsServed size (2 ^ k) ptr old b.chunks)
      → Good old fallback
      → Good old (serve_or o w fallback)
  unfolding serve_or
  serve_or-Good old none w fallback first second ptr h maps = second ptr h maps
  serve_or-Good old (some (p, b)) w fallback first second ptr h maps =
      let same : p ≡ ptr = cc in first ptr b (ap (λ (q : ℕ). some (q, b)) same) maps

-- Runs in use survive a further chunk, and its own bump pointer is inside it.
append_chunk-Lies :
    (chunks : List Chunk) (c : Chunk) (q n : ℕ) → Lies chunks q n → Lies (chunks ++ (c ∷ [])) q n
append_chunk-Lies chunks c q n run = record {
  index = run.index;
  chunk = run.chunk;
  found = get_elem?-append chunks (c ∷ []) run.index run.chunk run.found;
  from = run.from;
  upto = run.upto;
}

append_chunk-AreUsed :
    (chunks : List Chunk) (c : Chunk)
    → AreUsed chunks
    → c.used ≤ c.size
    → AreUsed (chunks ++ (c ∷ []))
append_chunk-AreUsed chunks c used new i d h = elim (get_elem?-snoc chunks c i d h) [
  | inl found ↦ used i d found
  | inr same ↦ subst (λ (x : Chunk). x.used ≤ x.size) same new
]

widen :
    {size alignment ptr : ℕ} {old mid new : List Chunk}
    → ((q n : ℕ) → Lies old q n → Lies mid q n)
    → IsServed size alignment ptr mid new
    → IsServed size alignment ptr old new
widen into served_mid = record {
  lies = served_mid.lies;
  aligned = served_mid.aligned;
  kept = λ q n run. served_mid.kept q n (into q n run);
  apart = λ q n run. served_mid.apart q n (into q n run);
}

module _ {W : Type 0} (acquire_child_page allocate_page : ℕ → Bool → W → ℕ × W) (size j k : ℕ)
    (e : j + k ≡ 64) where
  allocate_new_chunk-Lies :
      (n : ℕ) (a : MemoryArena) (w : W) (q len : ℕ)
      → Lies a.chunks q len
      → Lies (allocate_new_chunk acquire_child_page allocate_page n a w).0.chunks q len
  unfolding allocate_new_chunk append_chunk
  allocate_new_chunk-Lies n a w q len run = append_chunk-Lies a.chunks _ q len run

  allocate_new_chunk-AreUsed :
      (n : ℕ) (a : MemoryArena) (w : W)
      → AreUsed a.chunks
      → AreUsed (allocate_new_chunk acquire_child_page allocate_page n a w).0.chunks
  unfolding allocate_new_chunk append_chunk
  allocate_new_chunk-AreUsed n a w used = append_chunk-AreUsed a.chunks _ used (omega arith)

  or_grow-Good :
      (a : MemoryArena) (w : W)
      → AreUsed a.chunks
      → Good size j k e a.chunks
          (allocate_or_grow acquire_child_page allocate_page size (2 ^ k) a w)
  unfolding allocate_or_grow
  or_grow-Good a w used =
      let grown = allocate_new_chunk acquire_child_page allocate_page size a w in
      serve_or-Good size j k e a.chunks (bump_current a size (2 ^ k)) w
        (serve_or (bump_current grown.0 size (2 ^ k)) grown.1 (served bad_alloc grown.0 grown.1))
        (λ ptr b h maps. bump_current-IsServed size j k e a ptr b used h maps)
        (serve_or-Good size j k e a.chunks (bump_current grown.0 size (2 ^ k)) grown.1
          (served bad_alloc grown.0 grown.1)
          (λ ptr b h maps. widen (allocate_new_chunk-Lies size a w) (
            bump_current-IsServed size j k e grown.0 ptr b
              (allocate_new_chunk-AreUsed size a w used) h maps))
          (λ ptr h maps. absurd (cc)))

  ensure_chunk-Lies :
      (a : MemoryArena) (w : W) (o : Option Chunk) (q n : ℕ)
      → Lies a.chunks q n
      → Lies (ensure_chunk acquire_child_page allocate_page size a w o).0.chunks q n
  unfolding ensure_chunk
  ensure_chunk-Lies a w none q n run = allocate_new_chunk-Lies size a w q n run
  ensure_chunk-Lies a w (some c) q n run = run

  ensure_chunk-AreUsed :
      (a : MemoryArena) (w : W) (o : Option Chunk)
      → AreUsed a.chunks
      → AreUsed (ensure_chunk acquire_child_page allocate_page size a w o).0.chunks
  unfolding ensure_chunk
  ensure_chunk-AreUsed a w none used = allocate_new_chunk-AreUsed size a w used
  ensure_chunk-AreUsed a w (some c) used = used

  Good-teardown :
      (a : MemoryArena) (w : W) (dead : Bool) (s : Served W)
      → Good size j k e a.chunks s
      → Good size j k e a.chunks (if dead then served after_teardown a w else s)
  Good-teardown a w false s good = good
  Good-teardown a w true s good = λ ptr h maps. absurd (cc)

  -- An allocation that succeeds gives an aligned block of the used part of a chunk, apart from
  -- every run in use before it, and those stay in use: where the alignment is a power of two,
  -- bump pointers are inside their chunks, and the chunks afterwards are mappings apart.
  pub allocate_raw-IsServed :
      (a : MemoryArena) (w : W) (ptr : ℕ)
      → AreUsed a.chunks
      → (allocate_raw acquire_child_page allocate_page size (2 ^ k) a w).outcome ≡ allocated ptr
      → AreMappings
          (2 ^ k)
          (allocate_raw acquire_child_page allocate_page size (2 ^ k) a w).arena.chunks
      → IsServed size
          (2 ^ k)
          ptr
          a.chunks
          (allocate_raw acquire_child_page allocate_page size (2 ^ k) a w).arena.chunks
  unfolding allocate_raw ensure_current
  allocate_raw-IsServed a w ptr used h maps =
      let ready = ensure_current acquire_child_page allocate_page size a w in
      let here = get_elem? a.chunks a.current in
      Good-teardown a w a.is_teardown
        (allocate_or_grow acquire_child_page allocate_page size (2 ^ k) ready.0 ready.1)
        (λ p g m.
          widen (ensure_chunk-Lies a w here)
            (or_grow-Good ready.0 ready.1 (ensure_chunk-AreUsed a w here used) p g m))
        ptr h maps
