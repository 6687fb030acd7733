-- ===== src/Arena/Placement.antt =====
-- core/MemoryArena.h, where `allocateRawLocked` puts a block in a chunk.
use etcs.Base.{
  ℕ, ◌+◌, ◌-◌, ◌^◌, ◌%◌, ◌≤◌, ◌≡◌, refl, ap, ◌∙◌, arith, Bool, true, false, Option, none, some, ltb,
  if◌then◌else◌,
}
use etcs.Base.Align.{align_up, align_up-IsNextMultiple}
use etcs.Base.Memory.{size_mod}
use etcs.Arena.{Chunk, bump}

-- A chunk's bump pointer is inside its mapping, and an address past it is a machine word.
pub record IsValid (alignment : ℕ) (c : Chunk) : Type 0 where
  pub used_le : c.used ≤ c.size
  pub in_range : c.buffer + c.size + alignment ≤ size_mod

-- The block that one chunk has served.
pub record IsPlaced (c : Chunk) (size alignment ptr : ℕ) (c2 : Chunk) : Type 0 where
  pub buffer_same : c2.buffer ≡ c.buffer
  pub size_same : c2.size ≡ c.size
  pub aligned : ptr % alignment ≡ 0
  pub above : c.buffer + c.used ≤ ptr
  pub end_of_block : ptr + size ≡ c2.buffer + c2.used
  pub fits : c2.used ≤ c2.size

abbrev fit : Bool → ℕ × Chunk → Option (ℕ × Chunk)
fit full block = if full then none else some block

placed :
    (c : Chunk) (offset size : ℕ) (full : Bool) (ptr : ℕ) (c2 : Chunk)
    → ltb c.size (offset + size) ≡ full
    → fit full (c.buffer + offset, record c { used = offset + size }) ≡ some (ptr, c2)
    → (offset + size ≤ c.size)
      × (ptr ≡ c.buffer + offset)
      × (c2 ≡ record c { used = offset + size })
placed c offset size true ptr c2 t h = absurd (cc)
placed c offset size false ptr c2 t h = (ground arith, cc, cc)

pub bump-IsPlaced :
    (c : Chunk) (size j k ptr : ℕ) (c2 : Chunk)
    → j + k ≡ 64
    → IsValid (2 ^ k) c
    → bump c size (2 ^ k) ≡ some (ptr, c2)
    → IsPlaced c size (2 ^ k) ptr c2
unfolding bump
bump-IsPlaced c size j k ptr c2 e valid h =
    let up = align_up (c.buffer + c.used) (2 ^ k) in
    let le = valid.used_le in
    let range = valid.in_range in
    let next = align_up-IsNextMultiple (c.buffer + c.used) j k e (omega arith) in
    let low : c.buffer + c.used ≤ up = next.above in
    let facts = placed c (up - c.buffer) size (ltb c.size (up - c.buffer + size)) ptr c2 refl h in
    let here : ptr ≡ c.buffer + (up - c.buffer) = facts.1 in
    let there : ptr ≡ up = omega arith in
    let end_is : c2.used ≡ up - c.buffer + size = ap (λ (d : Chunk). d.used) facts.2 in
    let base : c2.buffer ≡ c.buffer = ap (λ (d : Chunk). d.buffer) facts.2 in
    let extent : c2.size ≡ c.size = ap (λ (d : Chunk). d.size) facts.2 in
    let room : up - c.buffer + size ≤ c.size = facts.0 in
    record {
      buffer_same = base;
      size_same = extent;
      aligned = ap (λ (x : ℕ). x % 2 ^ k) there ∙ next.multiple;
      above = omega arith;
      end_of_block = omega arith;
      fits = omega arith;
    }

-- Whatever the addresses are, a chunk's mapping stays and its bump pointer stops at the end.
pub bump_frame :
    (c : Chunk) (size alignment ptr : ℕ) (c2 : Chunk)
    → bump c size alignment ≡ some (ptr, c2)
    → (c2.buffer ≡ c.buffer) × (c2.size ≡ c.size) × (c2.used ≤ c2.size)
unfolding bump
bump_frame c size alignment ptr c2 h =
    let offset = align_up (c.buffer + c.used) alignment - c.buffer in
    let facts = placed c offset size (ltb c.size (offset + size)) ptr c2 refl h in
    let extent : c2.size ≡ c.size = ap (λ (d : Chunk). d.size) facts.2 in
    let end_is : c2.used ≡ offset + size = ap (λ (d : Chunk). d.used) facts.2 in
    let room : offset + size ≤ c.size = facts.0 in
    (ap (λ (d : Chunk). d.buffer) facts.2, extent, omega arith)
