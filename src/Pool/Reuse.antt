-- ===== src/Pool/Reuse.antt =====
-- core/MemoryArena.h, a page that a child arena gives back to the pool is the next one handed out.
use etcs.Base.{
  ℕ, suc, ◌-◌, ◌/◌, ◌≤◌, ◌≡◌, sym, ap, ◌∙◌, fun_ext, arith, Bool, false, List, [], ◌∷◌, Option,
  some, ltb, ◌==◌, if◌then◌else◌, ℕ_discrete,
}
use etcs.Base.Maps.{update, update_self, update_ne}
use etcs.Pool.{
  Slab, Pool, huge_slab_size, put_slab, pop_page, pop_slab, take_page, take_or_mint,
  acquire_child_page, push_page, give_back, give_to, owner_of, resolve_slab, release_child_page,
  unmap_slab,
}

abbrev pub slab : ℕ → List ℕ → ℕ → Slab
slab base slots live = record { base = base; free_slots = slots; live_pages = live }

-- Whether the pool serves next from a slab that has these free pages, once it has one more: it has
-- none, or it is the last in the list of slabs with room.
abbrev pub IsNext : Pool → ℕ → List ℕ → Type 0
IsNext p base [] = Unit {0}
IsNext p base (slot ∷ slots) = (rest : List ℕ) × (p.available_slabs ≡ base ∷ rest)

update_back :
    (slabs : ℕ → Option Slab) (b : ℕ) (s t : Slab)
    → slabs b ≡ some s
    → update (update slabs b (some t)) b (some s) ≡ slabs
update_back slabs b s t known = fun_ext (λ c. elim (ℕ_discrete b c) [
  | yes e ↦
      ap (update (update slabs b (some t)) b (some s)) (sym e)
      ∙ update_self (update slabs b (some t)) b (some s)
      ∙ sym known
      ∙ ap slabs e
  | no ne ↦ update_ne (update slabs b (some t)) b c (some s) ne ∙ update_ne slabs b c (some t) ne
])

module _ (page_size page_count fresh : ℕ) (p : Pool) (b live ptr : ℕ) (more : 2 ≤ live) where
  counted : suc (live - 1) ≡ live
  counted = omega arith

  take_back :
      (slots : List ℕ)
      → p.slabs_by_base b ≡ some (slab b slots live)
      → IsNext p b slots
      → let q = push_page p (slab b slots live) ptr slots in
        take_or_mint page_size page_count fresh q q.available_slabs ≡ some (ptr, p)
  unfolding take_or_mint take_page pop_slab pop_page push_page put_slab
  take_back [] known next =
      let q = push_page p (slab b [] live) ptr [] in
      let s = slab b (ptr ∷ []) (live - 1) in
      ap (pop_slab q b p.available_slabs) (update_self p.slabs_by_base b (some s))
      ∙ ap
          (λ (k : ℕ).
            some (ptr, put_slab (record q { available_slabs = p.available_slabs }) (slab b [] k)))
          counted
      ∙ ap (λ (m : ℕ → Option Slab). some (ptr, record p { slabs_by_base = m }))
          (update_back p.slabs_by_base b (slab b [] live) s known)
  take_back (slot ∷ slots) known (rest, front) =
      let q = push_page p (slab b (slot ∷ slots) live) ptr (slot ∷ slots) in
      let s = slab b (ptr ∷ slot ∷ slots) (live - 1) in
      ap (take_or_mint page_size page_count fresh q) front
      ∙ ap (pop_slab q b rest) (update_self p.slabs_by_base b (some s))
      ∙ ap (λ (k : ℕ). some (ptr, put_slab q (slab b (slot ∷ slots) k))) counted
      ∙ ap (λ (m : ℕ → Option Slab). some (ptr, record p { slabs_by_base = m }))
          (update_back p.slabs_by_base b (slab b (slot ∷ slots) live) s known)

-- A page that goes back to the pool is the one that the next request gets, and the pool is then as
-- it was before: where both sizes are at most a page, the page's slab is known under its base and has
-- another live page, and it has no free page or is the last in the list of slabs with room.
pub acquire_child_page-release_child_page :
    (page_size fresh ptr size requested : ℕ) (p : Pool) (b live : ℕ) (slots : List ℕ)
    → size ≤ page_size
    → requested ≤ page_size
    → p.page_registry ptr ≡ some b
    → p.slabs_by_base b ≡ some (slab b slots live)
    → 2 ≤ live
    → IsNext p b slots
    → acquire_child_page page_size fresh requested false (release_child_page page_size ptr size p)
      ≡ some (ptr, p)
unfolding acquire_child_page release_child_page resolve_slab owner_of give_to give_back
acquire_child_page-release_child_page page_size fresh ptr size requested p b live slots fits small
      owner known more next =
    let n = huge_slab_size / page_size in
    let s = slab b slots live in
    let q = push_page p s ptr slots in
    let page : ltb page_size size ≡ false = ground (arith, fits) in
    let one : ltb page_size requested ≡ false = ground (arith, small) in
    let many : (live == 1) ≡ false = ground (arith, more) in
    let back : release_child_page page_size ptr size p ≡ q =
      ap
        (λ (large : Bool).
          if large
          then record p { freed = (ptr, size) ∷ p.freed }
          else give_to page_size n p ptr (owner_of p (p.page_registry ptr)))
        page
      ∙ ap (λ (o : Option ℕ). give_to page_size n p ptr (owner_of p o)) owner
      ∙ ap (give_to page_size n p ptr) known
      ∙ ap (λ (last : Bool). if last then unmap_slab page_size n q s else q) many in
    ap (acquire_child_page page_size fresh requested false) back
    ∙ ap
        (λ (large : Bool).
          if large then some (fresh, q) else take_or_mint page_size n fresh q q.available_slabs)
        one
    ∙ take_back page_size n fresh p b live ptr more slots known next
