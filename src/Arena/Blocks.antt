-- ===== src/Arena/Blocks.antt =====
-- core/MemoryArena.h, the blocks that `allocateRawLocked` serves lie apart.
use etcs.Base.{
  ℕ, ◌+◌, ◌%◌, ◌≤◌, ◌<◌, ◌≡◌, ◌≢◌, sym, ap, ◌∙◌, arith, List, some, ◌⊎◌, inl, inr, ℕ_discrete,
  get_elem?, set, length, get_elem?-set_ne, get_elem?-set_self,
}
use etcs.Base.Memory.{size_mod}
use etcs.Arena.{Chunk}
use etcs.Arena.Placement.{IsPlaced}

-- A run of bytes in the used part of one of the chunks.
pub record Lies (chunks : List Chunk) (q n : ℕ) : Type 0 where
  pub index : ℕ
  pub chunk : Chunk
  pub found : get_elem? chunks index ≡ some chunk
  pub from : chunk.buffer ≤ q
  pub upto : q + n ≤ chunk.buffer + chunk.used

-- Every bump pointer is inside its chunk.
abbrev pub AreUsed : List Chunk → Type 0
AreUsed chunks = (i : ℕ) (c : Chunk) → get_elem? chunks i ≡ some c → c.used ≤ c.size

-- The chunks are mappings: apart from each other, and not at the top of the address space.
pub record AreMappings (alignment : ℕ) (chunks : List Chunk) : Type 0 where
  pub in_range :
      (i : ℕ) (c : Chunk) → get_elem? chunks i ≡ some c → c.buffer + c.size + alignment ≤ size_mod
  pub apart :
      (i j : ℕ) (c d : Chunk)
      → i ≢ j
      → get_elem? chunks i ≡ some c
      → get_elem? chunks j ≡ some d
      → (c.buffer + c.size ≤ d.buffer) ⊎ (d.buffer + d.size ≤ c.buffer)

-- A block served from some chunks, and what becomes of the runs that were in use.
pub record IsServed (size alignment ptr : ℕ) (old new : List Chunk) : Type 0 where
  pub lies : Lies new ptr size
  pub aligned : ptr % alignment ≡ 0
  pub kept : (q n : ℕ) → Lies old q n → Lies new q n
  pub apart : (q n : ℕ) → Lies old q n → (q + n ≤ ptr) ⊎ (ptr + size ≤ q)

-- The chunk that a placement leaves has its mapping where it was.
module _ (chunks : List Chunk) (at : ℕ) (c c2 : Chunk) (size alignment ptr : ℕ)
    (here : get_elem? chunks at ≡ some c) (placed : IsPlaced c size alignment ptr c2)
    (used : AreUsed chunks) (maps : AreMappings alignment (set chunks at c2))
    (inside : at < length chunks) where
  there : get_elem? (set chunks at c2) at ≡ some c2
  there = get_elem?-set_self chunks at c2 inside

  same : (i : ℕ) (d : Chunk) → at ≡ i → get_elem? chunks i ≡ some d → d ≡ c
  same i d e found =
      let one : some d ≡ some c = sym found ∙ ap (get_elem? chunks) (sym e) ∙ here in cc

  run_kept : (q n : ℕ) → Lies chunks q n → Lies (set chunks at c2) q n
  run_kept q n run = elim (ℕ_discrete at run.index) [
    | no ne ↦ record {
      index = run.index;
      chunk = run.chunk;
      found = get_elem?-set_ne chunks c2 ne ∙ run.found;
      from = run.from;
      upto = run.upto;
    }
    | yes e ↦ low (same run.index run.chunk e run.found)
  ]
    where
      low : run.chunk ≡ c → Lies (set chunks at c2) q n
      low eq =
          let start : run.chunk.buffer ≡ c.buffer = ap (λ (d : Chunk). d.buffer) eq in
          let extent : run.chunk.used ≡ c.used = ap (λ (d : Chunk). d.used) eq in
          let f = run.from in
          let u = run.upto in
          let b = placed.buffer_same in
          let a = placed.above in
          let l = placed.end_of_block in
          record { index = at; chunk = c2; found = there; from = omega arith; upto = omega arith }

  run_apart : (q n : ℕ) → Lies chunks q n → (q + n ≤ ptr) ⊎ (ptr + size ≤ q)
  run_apart q n run = elim (ℕ_discrete at run.index) [
    | no ne ↦
        beside (
          maps.apart at run.index c2 run.chunk ne there (get_elem?-set_ne chunks c2 ne ∙ run.found))
    | yes e ↦ below (same run.index run.chunk e run.found)
  ]
    where
      below : run.chunk ≡ c → (q + n ≤ ptr) ⊎ (ptr + size ≤ q)
      below eq =
          let start : run.chunk.buffer ≡ c.buffer = ap (λ (d : Chunk). d.buffer) eq in
          let extent : run.chunk.used ≡ c.used = ap (λ (d : Chunk). d.used) eq in
          let u = run.upto in let a = placed.above in inl (omega arith)

      beside :
          (c2.buffer + c2.size ≤ run.chunk.buffer) ⊎ (run.chunk.buffer + run.chunk.size ≤ c2.buffer)
          → (q + n ≤ ptr) ⊎ (ptr + size ≤ q)
      beside (inl h) =
          let f = run.from in
          let l = placed.end_of_block in let s = placed.fits in inr (omega arith)
      beside (inr h) =
          let u = run.upto in
          let s = used run.index run.chunk run.found in
          let b = placed.buffer_same in let a = placed.above in inl (omega arith)

  pub serve_current : IsServed size alignment ptr chunks (set chunks at c2)
  serve_current =
      let b = placed.buffer_same in
      let a = placed.above in
      let l = placed.end_of_block in
      record {
        lies = record {
          index = at;
          chunk = c2;
          found = there;
          from = omega arith;
          upto = omega arith;
        };
        aligned = placed.aligned;
        kept = run_kept;
        apart = run_apart;
      }
