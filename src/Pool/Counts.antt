-- ===== src/Pool/Counts.antt =====
-- core/MemoryArena.h, the counts of the pool: a slab's free and live pages, and its place in the
-- list of slabs with room.
use etcs.Base.{
  ℕ, suc, ◌+◌, ◌≤◌, ◌<◌, ◌≡◌, ◌≢◌, refl, sym, subst, arith, true, List, [], ◌∷◌, Option, none, some,
  ◌==◌, if◌then◌else◌, length, ℕ_discrete,
}
use etcs.Base.Maps.{update, update_self, update_ne}
use etcs.Pool.{Slab, Pool, replace_first, mem, swap_out}

abbrev pub occurs : List ℕ → ℕ → ℕ
occurs [] b = 0
occurs (x ∷ xs) b = if x == b then suc (occurs xs b) else occurs xs b

-- How often a slab with these free pages belongs in the list of slabs with room.
abbrev pub listing : List ℕ → ℕ
listing [] = 0
listing (page ∷ pages) = 1

-- A slab at its base accounts for each of its pages, `least` of them live, and is listed at most
-- once, exactly if it has a free page; where there is no slab nothing is listed.
abbrev pub Holds : ℕ → ℕ → ℕ → Option Slab → ℕ → Type 0
Holds n least b none k = k ≡ 0
Holds n least b (some s) k =
    (s.base ≡ b)
    × (length s.free_slots + s.live_pages ≡ n)
    × (least ≤ s.live_pages)
    × (k ≡ listing s.free_slots)

abbrev pub AllHold : ℕ → (ℕ → ℕ) → (ℕ → Option Slab) → List ℕ → Type 0
AllHold n least slabs av = (b : ℕ) → Holds n (least b) b (slabs b) (occurs av b)

abbrev pub one_live : ℕ → ℕ
one_live b = 1

-- Every slab has a live page, and the accounts of all slabs are right.
abbrev pub IsValid : ℕ → Pool → Type 0
IsValid n p = AllHold n one_live p.slabs_by_base p.available_slabs

pub hold_update :
    (n : ℕ) (least least2 : ℕ → ℕ) (slabs : ℕ → Option Slab) (av av2 : List ℕ) (b : ℕ)
    (o : Option Slab)
    → AllHold n least slabs av
    → ((c : ℕ) → b ≢ c → least c ≡ least2 c)
    → ((c : ℕ) → b ≢ c → occurs av c ≡ occurs av2 c)
    → Holds n (least2 b) b o (occurs av2 b)
    → AllHold n least2 (update slabs b o) av2
hold_update n least least2 slabs av av2 b o old lim same new c = elim (ℕ_discrete b c) [
  | yes e ↦
      subst (λ (c : ℕ). Holds n (least2 c) c (update slabs b o c) (occurs av2 c)) e
        (subst (λ (o : Option Slab). Holds n (least2 b) b o (occurs av2 b))
          (sym (update_self slabs b o)) new)
  | no ne ↦
      subst (λ (o : Option Slab). Holds n (least2 c) c o (occurs av2 c))
        (sym (update_ne slabs b c o ne))
        (subst (λ (m : ℕ). Holds n m c (slabs c) (occurs av2 c)) (lim c ne)
          (subst (Holds n (least c) c (slabs c)) (same c ne) (old c)))
]

pub occurs_ne : (b c : ℕ) (av : List ℕ) → b ≢ c → occurs av c ≡ occurs (b ∷ av) c
occurs_ne b c av ne = ground arith

pub occurs_self : (b : ℕ) (av : List ℕ) → occurs (b ∷ av) b ≡ suc (occurs av b)
occurs_self b av = ground arith

-- What taking a slab out of the list does to the count of every slab.
replace_first_self :
    (xs : List ℕ) (b back : ℕ)
    → mem xs b ≡ true
    → back ≢ b
    → suc (occurs (replace_first xs b back) b) ≡ occurs xs b
unfolding replace_first mem
replace_first_self [] b back h ne = absurd (cc)
replace_first_self (x ∷ xs) b back h ne = ground (arith, replace_first_self xs b back)

replace_first_ne :
    (xs : List ℕ) (b back c : ℕ)
    → mem xs b ≡ true
    → b ≢ c
    → occurs (replace_first xs b back) c ≡ occurs (back ∷ xs) c
unfolding replace_first mem
replace_first_ne [] b back c h ne = absurd (cc)
replace_first_ne (x ∷ xs) b back c h ne = ground (arith, replace_first_ne xs b back c)

mem-occurs : (xs : List ℕ) (b : ℕ) → 0 < occurs xs b → mem xs b ≡ true
unfolding mem
mem-occurs [] b h = absurd (omega arith)
mem-occurs (x ∷ xs) b h = ground (arith, mem-occurs xs b)

pub swap_out_self : (xs : List ℕ) (b : ℕ) → occurs xs b ≡ 1 → occurs (swap_out xs b) b ≡ 0
unfolding swap_out
swap_out_self [] b h = absurd (omega arith)
swap_out_self (back ∷ xs) b h = ground (arith, mem-occurs xs b, replace_first_self xs b back)

pub swap_out_ne : (xs : List ℕ) (b c : ℕ) → b ≢ c → occurs xs c ≡ occurs (swap_out xs b) c
unfolding swap_out
swap_out_ne [] b c ne = refl
swap_out_ne (back ∷ xs) b c ne = ground (arith, replace_first_ne xs b back c)
