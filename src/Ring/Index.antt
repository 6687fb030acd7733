-- ===== src/Ring/Index.antt =====
-- Where the slots lie: a sequence number masked is its remainder by the count of slots, and two
-- numbers less than one lap apart have two slots.
use native.Mathlib.Nat.{mod-add-mod, mod-eq-sub-mod, mod-eq_of_lt}
use etcs.Base.{ℕ, ◌+◌, ◌-◌, ◌%◌, ◌^◌, ◌<◌, ◌≡◌, ◌≢◌, ap, sym, ◌∙◌, dec_lt, arith}
use etcs.Base.Bits.{bit_and-mask}
use etcs.Ring.{Page, slot_index}

-- Less than a lap on from a remainder is another remainder.
shift_ne : (n h d : ℕ) → h < n → 0 < d → d < n → (h + d) % n ≢ h
shift_ne n h d hh pos small = elim (dec_lt (h + d) n) [
  | yes p ↦ omega (arith, mod-eq_of_lt p)
  | no p ↦ omega (
    arith,
    mod-eq-sub-mod {n = h + d} {m = n} (omega arith),
    mod-eq_of_lt {n = h + d - n} {m = n} (omega arith),
  )
]

pub mod_ne : (n a b : ℕ) → a < b → b < a + n → a % n ≢ b % n
mod_ne n a b h k e =
    shift_ne n (a % n) (b - a) (omega arith) (omega arith) (omega arith)
      (mod-add-mod a n (b - a) ∙ same ∙ sym e)
  where
    back : a + (b - a) ≡ b
    back = omega arith

    same : (a + (b - a)) % n ≡ b % n
    same = ap (λ (t : ℕ). t % n) back

pub record HasGeometry {n : ℕ} (p : Page n) : Type 0 where
  pub bits : ℕ
  pub count : p.slot_count ≡ 2 ^ bits
  pub mask : p.index_mask ≡ 2 ^ bits - 1

pub slot_index_lem :
    {n : ℕ} {p : Page n} → HasGeometry p → (s : ℕ) → slot_index p s ≡ s % p.slot_count
slot_index_lem {p = p} g s = rw (g.mask, g.count) (bit_and-mask g.bits s)
