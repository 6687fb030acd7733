-- ===== src/Pool/Steps.antt =====
-- core/MemoryArena.h, each call on the pool keeps its counts.
use etcs.Base.{
  ℕ, zero, suc, ◌+◌, ◌-◌, ◌*◌, ◌/◌, ◌≤◌, ◌<◌, ◌≡◌, ◌≢◌, refl, sym, ap, subst, ◌∙◌, arith, Bool,
  true, false, ◌||◌, List, [], ◌∷◌, Option, none, some, Option-cases, inl, inr, ltb, ◌==◌,
  if◌then◌else◌, length,
}
use etcs.Pool.{
  Slab, Pool, huge_slab_size, put_slab, carve, mint_slab, swap_out, unmap_slab, pop_page, pop_slab,
  take_page, take_or_mint, acquire_child_page, push_page, give_back, give_to, owner_of,
  resolve_slab, release_child_page,
}
use etcs.Pool.Counts.{
  occurs, listing, Holds, AllHold, one_live, IsValid, hold_update, occurs_ne, occurs_self,
  swap_out_self, swap_out_ne,
}

-- A bound on live pages that is dropped at one slab.
abbrev idle_at : ℕ → ℕ → ℕ
idle_at b c = if b == c then 0 else 1

idle_ne : (b c : ℕ) → b ≢ c → idle_at b c ≡ 1
idle_ne b c ne = ground arith

idle_self : (b : ℕ) → idle_at b b ≤ 0
idle_self b = ground arith

length-carve :
    (base page_size i n : ℕ) (slots : List ℕ)
    → length (carve base page_size i n slots) ≡ n + length slots
unfolding carve
length-carve base page_size i zero slots = omega arith
length-carve base page_size i (suc n) slots =
    omega (arith, length-carve base page_size (suc i) n ((base + i * page_size) ∷ slots))

listing_suc : (pages : List ℕ) → 0 < length pages → 1 ≡ listing pages
listing_suc [] h = absurd (omega arith)
listing_suc (x ∷ pages) h = refl

-- What a call that hands out a page gives.
abbrev pub Served : ℕ → Option (ℕ × Pool) → Type 0
Served n o = (page : ℕ) × (q : Pool) × (o ≡ some (page, q)) × IsValid n q

module _ (n : ℕ) where
  mint_slab-AllHold :
      (page_size base : ℕ) (p : Pool)
      → 0 < n
      → p.slabs_by_base base ≡ none
      → IsValid n p
      → AllHold n
          (idle_at base)
          (mint_slab page_size n base p).slabs_by_base
          (base ∷ p.available_slabs)
  unfolding mint_slab put_slab
  mint_slab-AllHold page_size base p h free valid =
      let count = length-carve base page_size 0 n [] in
      let here : Holds n 1 base none (occurs p.available_slabs base) =
        subst (λ (o : Option Slab). Holds n 1 base o (occurs p.available_slabs base)) free
          (valid base) in
      hold_update n one_live (idle_at base) p.slabs_by_base p.available_slabs
        (base ∷ p.available_slabs) base _ valid (λ c ne. sym (idle_ne base c ne))
        (λ c ne. occurs_ne base c p.available_slabs ne)
        (
          refl,
          omega (arith, count),
          idle_self base,
          occurs_self base p.available_slabs
              ∙ ap suc here
              ∙ listing_suc (carve base page_size 0 n []) (omega (arith, count)),
        )

  module _ (p : Pool) (least : ℕ → ℕ) (s : Slab) (rest : List ℕ)
      (valid : AllHold n least p.slabs_by_base p.available_slabs)
      (front : p.available_slabs ≡ s.base ∷ rest) (lim : (c : ℕ) → s.base ≢ c → least c ≡ 1) where
    pop_page-Served :
        (pages : List ℕ)
        → length pages + s.live_pages ≡ n
        → occurs (s.base ∷ rest) s.base ≡ listing pages
        → Served n (pop_page p s.base rest s pages)
    unfolding pop_page put_slab
    pop_page-Served [] total listed = absurd (omega (arith, occurs_self s.base rest))
    pop_page-Served (page ∷ []) total listed = (
      page,
      _,
      refl,
      hold_update n least one_live p.slabs_by_base p.available_slabs rest s.base _ valid lim
          (λ c ne. ap (λ (av : List ℕ). occurs av c) front ∙ sym (occurs_ne s.base c rest ne))
          (refl, omega arith, omega arith, omega (arith, occurs_self s.base rest)),
    )
    pop_page-Served (page ∷ next ∷ slots) total listed = (
      page,
      _,
      refl,
      hold_update n least one_live p.slabs_by_base p.available_slabs p.available_slabs s.base _
          valid lim (λ c ne. refl)
          (refl, omega arith, omega arith, ap (λ (av : List ℕ). occurs av s.base) front ∙ listed),
    )

  take_page-Served :
      (p : Pool) (least : ℕ → ℕ) (b : ℕ) (rest : List ℕ)
      → AllHold n least p.slabs_by_base p.available_slabs
      → p.available_slabs ≡ b ∷ rest
      → ((c : ℕ) → b ≢ c → least c ≡ 1)
      → Served n (take_page p (b ∷ rest))
  unfolding take_page pop_slab
  take_page-Served p least b rest valid front lim = elim (Option-cases (p.slabs_by_base b)) [
    | inl missing ↦ absurd (unlisted missing)
    | inr (s, here) ↦ from s here
  ]
    where
      unlisted : p.slabs_by_base b ≡ none → ⊥
      unlisted missing =
          let zero_listed : occurs p.available_slabs b ≡ 0 =
            subst (λ (o : Option Slab). Holds n (least b) b o (occurs p.available_slabs b)) missing
              (valid b) in
          let same : occurs p.available_slabs b ≡ occurs (b ∷ rest) b =
            ap (λ (av : List ℕ). occurs av b) front in
          omega (arith, occurs_self b rest)

      from :
          (s : Slab) → p.slabs_by_base b ≡ some s → Served n (pop_slab p b rest (p.slabs_by_base b))
      from s here =
          let (based, total, live, listed) =
            subst (λ (o : Option Slab). Holds n (least b) b o (occurs p.available_slabs b)) here
              (valid b) in
          let same : occurs (b ∷ rest) b ≡ listing s.free_slots =
            sym (ap (λ (av : List ℕ). occurs av b) front) ∙ listed in
          subst (λ (o : Option Slab). Served n (pop_slab p b rest o)) (sym here)
            (subst (λ (b : ℕ). Served n (pop_page p b rest s s.free_slots)) based
              (pop_page-Served p least s rest valid
                (subst (λ (b : ℕ). p.available_slabs ≡ b ∷ rest) (sym based) front)
                (subst (λ (b : ℕ). (c : ℕ) → b ≢ c → least c ≡ 1) (sym based) lim) s.free_slots
                total
                (subst (λ (b : ℕ). occurs (b ∷ rest) b ≡ listing s.free_slots) (sym based) same)))

  take_or_mint-Served :
      (page_size fresh : ℕ) (p : Pool) (av : List ℕ)
      → 0 < n
      → p.slabs_by_base fresh ≡ none
      → IsValid n p
      → p.available_slabs ≡ av
      → Served n (take_or_mint page_size n fresh p av)
  unfolding take_or_mint mint_slab put_slab
  take_or_mint-Served page_size fresh p [] h free valid e =
      take_page-Served (mint_slab page_size n fresh p) (idle_at fresh) fresh p.available_slabs
        (mint_slab-AllHold page_size fresh p h free valid) refl (idle_ne fresh)
  take_or_mint-Served page_size fresh p (b ∷ rest) h free valid e =
      take_page-Served p one_live b rest valid e (λ c ne. refl)

  -- A page given back to its slab, which has then at least so many live ones.
  push_page-AllHold :
      (p : Pool) (s : Slab) (ptr : ℕ) (slots : List ℕ) (least : ℕ → ℕ)
      → IsValid n p
      → length slots + s.live_pages ≡ n
      → 0 < s.live_pages
      → occurs p.available_slabs s.base ≡ listing slots
      → ((c : ℕ) → s.base ≢ c → 1 ≡ least c)
      → least s.base ≤ s.live_pages - 1
      → AllHold n least
          (push_page p s ptr slots).slabs_by_base
          (push_page p s ptr slots).available_slabs
  unfolding push_page put_slab
  push_page-AllHold p s ptr [] least valid total live listed lim low =
      hold_update n one_live least p.slabs_by_base p.available_slabs (s.base ∷ p.available_slabs)
        s.base _ valid lim (λ c ne. occurs_ne s.base c p.available_slabs ne)
        (refl, omega arith, low, occurs_self s.base p.available_slabs ∙ ap suc listed)
  push_page-AllHold p s ptr (slot ∷ slots) least valid total live listed lim low =
      hold_update n one_live least p.slabs_by_base p.available_slabs p.available_slabs s.base _
        valid lim (λ c ne. refl) (refl, omega arith, low, listed)

  push_page_listed :
      (p : Pool) (s : Slab) (ptr : ℕ) (slots : List ℕ)
      → occurs p.available_slabs s.base ≡ listing slots
      → occurs (push_page p s ptr slots).available_slabs s.base ≡ 1
  unfolding push_page put_slab
  push_page_listed p s ptr [] listed = occurs_self s.base p.available_slabs ∙ ap suc listed
  push_page_listed p s ptr (slot ∷ slots) listed = listed

  unmap_slab-IsValid :
      (page_size page_count : ℕ) (q : Pool) (s : Slab)
      → AllHold n (idle_at s.base) q.slabs_by_base q.available_slabs
      → occurs q.available_slabs s.base ≡ 1
      → IsValid n (unmap_slab page_size page_count q s)
  unfolding unmap_slab
  unmap_slab-IsValid page_size page_count q s valid listed =
      hold_update n (idle_at s.base) one_live q.slabs_by_base q.available_slabs
        (swap_out q.available_slabs s.base) s.base none valid (idle_ne s.base)
        (λ c ne. swap_out_ne q.available_slabs s.base c ne)
        (swap_out_self q.available_slabs s.base listed)

  give_back-IsValid :
      (page_size page_count : ℕ) (p : Pool) (ptr : ℕ) (s : Slab)
      → IsValid n p
      → length s.free_slots + s.live_pages ≡ n
      → 0 < s.live_pages
      → occurs p.available_slabs s.base ≡ listing s.free_slots
      → IsValid n (give_back page_size page_count p ptr s)
  unfolding give_back
  give_back-IsValid page_size page_count p ptr s valid total live listed =
      last (s.live_pages == 1) refl
    where
      q : Pool
      q = push_page p s ptr s.free_slots

      last :
          (one : Bool)
          → (s.live_pages == 1) ≡ one
          → IsValid n (if one then unmap_slab page_size page_count q s else q)
      last true e =
          unmap_slab-IsValid page_size page_count q s
            (push_page-AllHold p s ptr s.free_slots (idle_at s.base) valid total live listed
              (λ c ne. sym (idle_ne s.base c ne)) (omega (arith, idle_self s.base)))
            (push_page_listed p s ptr s.free_slots listed)
      last false e =
          push_page-AllHold p s ptr s.free_slots one_live valid total live listed (λ c ne. refl)
            (more s.live_pages live e)
        where
          more : (k : ℕ) → 0 < k → (k == 1) ≡ false → 1 ≤ k - 1
          more k h e = ground arith

  give_to-IsValid :
      (page_size page_count : ℕ) (p : Pool) (ptr b : ℕ) (o : Option Slab)
      → IsValid n p
      → Holds n 1 b o (occurs p.available_slabs b)
      → IsValid n (give_to page_size page_count p ptr o)
  unfolding give_to
  give_to-IsValid page_size page_count p ptr b none valid here = valid
  give_to-IsValid page_size page_count p ptr b (some s) valid (based, total, live, listed) =
      give_back-IsValid page_size page_count p ptr s valid total live
        (ap (λ (b : ℕ). occurs p.available_slabs b) based ∙ listed)

  owner_of-IsValid :
      (page_size page_count : ℕ) (p : Pool) (ptr : ℕ) (o : Option ℕ)
      → IsValid n p
      → IsValid n (give_to page_size page_count p ptr (owner_of p o))
  unfolding owner_of give_to
  owner_of-IsValid page_size page_count p ptr none valid = valid
  owner_of-IsValid page_size page_count p ptr (some b) valid =
      give_to-IsValid page_size page_count p ptr b (p.slabs_by_base b) valid (valid b)

-- Releasing any pointer, of any size, keeps the accounts of the pool right, where they are right
-- before.
pub release_child_page-IsValid :
    (page_size ptr size n : ℕ) (p : Pool)
    → IsValid n p
    → IsValid n (release_child_page page_size ptr size p)
unfolding release_child_page resolve_slab
release_child_page-IsValid page_size ptr size n p valid = branch (ltb page_size size)
  where
    kept : Pool
    kept = record p { freed = (ptr, size) ∷ p.freed }

    returned : Pool
    returned =
        give_to page_size (huge_slab_size / page_size) p ptr (owner_of p (p.page_registry ptr))

    branch : (large : Bool) → IsValid n (if large then kept else returned)
    branch true = valid
    branch false =
        owner_of-IsValid n page_size (huge_slab_size / page_size) p ptr (p.page_registry ptr) valid

-- A request for a page is always served and keeps the accounts of the pool right, where they are
-- right before, a slab has at least one page, and a fresh mapping has no slab yet.
pub acquire_child_page-Served :
    (page_size fresh requested : ℕ) (want_dedicated : Bool) (p : Pool)
    → 0 < huge_slab_size / page_size
    → p.slabs_by_base fresh ≡ none
    → IsValid (huge_slab_size / page_size) p
    → Served
        (huge_slab_size / page_size)
        (acquire_child_page page_size fresh requested want_dedicated p)
unfolding acquire_child_page
acquire_child_page-Served page_size fresh requested want_dedicated p h free valid =
    branch (want_dedicated || ltb page_size requested)
  where
    carved : Option (ℕ × Pool)
    carved = take_or_mint page_size (huge_slab_size / page_size) fresh p p.available_slabs

    branch :
        (alone : Bool)
        → Served (huge_slab_size / page_size) (if alone then some (fresh, p) else carved)
    branch true = (fresh, p, refl, valid)
    branch false =
        take_or_mint-Served (huge_slab_size / page_size) page_size fresh p p.available_slabs h free
          valid refl
