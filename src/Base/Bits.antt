-- ===== src/Base/Bits.antt =====
-- Masks: `x & (2 ^ k - 1)` is `x % 2 ^ k`, for every width.
use Prim.Native.Nat.{digits, bit_and-bitwise}
use native.Mathlib.Nat.{pow-suc}
use etcs.Base.{
  ℕ, zero, suc, ◌+◌, ◌-◌, ◌*◌, ◌/◌, ◌%◌, ◌^◌, ◌≤◌, ◌<◌, min, bit_and, ◌≡◌, ap, ◌∙◌, arith,
}

pub width_pos : (k : ℕ) → 0 < 2 ^ k
width_pos zero = omega arith
width_pos (suc k) = omega (arith, pow-suc 2 k, width_pos k)

-- The lowest digit apart, a remainder by twice `p` is one by `p` of the half.
mod_twice : (x p : ℕ) → 0 < p → x % (2 * p) ≡ x / 2 % p * 2 + x % 2
mod_twice x p h = grind arith

mod_wider : (x k : ℕ) → x % 2 ^ suc k ≡ x / 2 % 2 ^ k * 2 + x % 2
mod_wider x k =
    let twice : 2 ^ suc k ≡ 2 * 2 ^ k = omega (arith, pow-suc 2 k) in
    ap (λ (p : ℕ). x % p) twice ∙ mod_twice x (2 ^ k) (width_pos k)

-- The mask is applied digit by digit, from the lowest; the digits of `x` bound the rounds.
pub mask_digits :
    (rounds k x : ℕ) → x ≤ rounds → digits (λ y. zero) min rounds x (2 ^ k - 1) ≡ x % 2 ^ k
mask_digits zero k zero h = omega (arith, width_pos k)
mask_digits zero k (suc x) h = absurd (omega arith)
mask_digits (suc rounds) k zero h = omega (arith, width_pos k)
mask_digits (suc rounds) zero (suc x) h =
    omega (arith, mask_digits rounds zero (suc x / 2) (omega arith))
mask_digits (suc rounds) (suc k) (suc x) h =
    let half : (2 ^ suc k - 1) / 2 ≡ 2 ^ k - 1 = omega (arith, pow-suc 2 k, width_pos k) in
    omega (
      arith,
      pow-suc 2 k,
      width_pos k,
      mod_wider (suc x) k,
      ap (digits (λ y. zero) min rounds (suc x / 2)) half,
      mask_digits rounds k (suc x / 2) (omega arith),
    )

pub bit_and-mask : (k x : ℕ) → bit_and x (2 ^ k - 1) ≡ x % 2 ^ k
bit_and-mask k x = bit_and-bitwise x (2 ^ k - 1) ∙ mask_digits x k x (omega arith)
