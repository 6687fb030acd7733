-- ===== src/Arena/FreeList.antt =====
-- core/MemoryArena.h and core/ArenaAllocator.h, blocks that are released and served again.
use etcs.Base.{
  ℕ, ◌<◌, ◌==◌, false, if◌then◌else◌, ◌≡◌, sym, ap, ◌∙◌, fun_ext, arith, List, ◌∷◌, some,
  ℕ_discrete, Bool,
}
use etcs.Base.Maps.{update, update_self, update_ne}
use etcs.Arena.{
  MemoryArena, pop_block, set_free_blocks, served, allocated, or_raw, try_acquire_from_free_list,
  release_to_free_list, allocate,
}

module _ {ℓ} {A : Type ℓ} where
  update_twice : (f : ℕ → A) (i : ℕ) (u v : A) → update (update f i u) i v ≡ update f i v
  unfolding update
  update_twice f i u v = fun_ext (λ j. ground arith)

  update_same : (f : ℕ → A) (i : ℕ) → update f i (f i) ≡ f
  update_same f i = fun_ext (λ j. elim (ℕ_discrete i j) [
    | yes e ↦ ap (update f i (f i)) (sym e) ∙ update_self f i (f i) ∙ ap f e
    | no ne ↦ update_ne f i j (f i) ne
  ])

module _ (a : MemoryArena) (size alignment : ℕ) where
  free_blocks-set :
      (blocks : List ℕ)
      → (set_free_blocks a size alignment blocks).free_blocks size alignment ≡ blocks
  unfolding set_free_blocks
  free_blocks-set blocks =
      ap (λ (f : ℕ → List ℕ). f alignment)
        (update_self a.free_blocks size (update (a.free_blocks size) alignment blocks))
      ∙ update_self (a.free_blocks size) alignment blocks

  set_back :
      (blocks : List ℕ)
      → set_free_blocks
          (set_free_blocks a size alignment blocks)
          size
          alignment
          (a.free_blocks size alignment)
        ≡ a
  unfolding set_free_blocks
  set_back blocks =
      let old = a.free_blocks size in
      let F = update a.free_blocks size (update old alignment blocks) in
      ap (λ (f : ℕ → ℕ → List ℕ). record a { free_blocks = f })
        (ap (λ (g : ℕ → List ℕ). update F size (update g alignment (old alignment)))
            (update_self a.free_blocks size (update old alignment blocks))
          ∙ ap (update F size)
              (update_twice old alignment blocks (old alignment) ∙ update_same old alignment)
          ∙ update_twice a.free_blocks size (update old alignment blocks) old
          ∙ update_same a.free_blocks size)

-- A block that was released, not the null pointer, is the next one served for its size and alignment, which leaves the
-- arena as it was before the release.
pub try_acquire_from_free_list-release_to_free_list :
    (a : MemoryArena) (ptr size alignment : ℕ)
    → 0 < ptr
    → try_acquire_from_free_list (release_to_free_list a ptr size alignment) size alignment
      ≡ (some ptr, a)
unfolding try_acquire_from_free_list release_to_free_list pop_block
try_acquire_from_free_list-release_to_free_list a ptr size alignment h =
    let pushed = ptr ∷ a.free_blocks size alignment in
    let real : (ptr == 0) ≡ false = ground arith in
    ap
      (λ (b : Bool).
        try_acquire_from_free_list (if b then a else set_free_blocks a size alignment pushed) size
          alignment)
      real
    ∙ ap (pop_block (set_free_blocks a size alignment pushed) size alignment)
        (free_blocks-set a size alignment pushed)
    ∙ ap (λ (b : MemoryArena). (some ptr, b)) (set_back a size alignment pushed)

module _ {W : Type 0} (acquire_child_page allocate_page : ℕ → Bool → W → ℕ × W) where
  -- What a container gives back, and is not the null pointer, it gets again for its next request of
  -- that size, and no page is asked for; the arena is then as before the release.
  pub allocate-release_to_free_list :
      (a : MemoryArena) (w : W) (ptr size alignment : ℕ)
      → 0 < ptr
      → allocate acquire_child_page allocate_page size alignment
          (release_to_free_list a ptr size alignment)
          w
        ≡ served (allocated ptr) a w
  unfolding allocate or_raw
  allocate-release_to_free_list a w ptr size alignment h =
      ap (or_raw acquire_child_page allocate_page size alignment w)
        (try_acquire_from_free_list-release_to_free_list a ptr size alignment h)
