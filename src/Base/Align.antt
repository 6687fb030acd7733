-- ===== src/Base/Align.antt =====
-- Rounding up to a power of two, `(x + a - 1) & ~(a - 1)` in 64 bits.
use Prim.Native.Nat.{digits, bit_and-bitwise}
use native.Mathlib.Nat.{pow-suc, mod-eq_of_lt}
use etcs.Base.{
  ℕ, zero, suc, ◌+◌, ◌-◌, ◌*◌, ◌/◌, ◌%◌, ◌^◌, ◌≤◌, ◌<◌, min, bit_and, ◌≡◌, ap, sym, subst, ◌∙◌,
  arith,
}
use etcs.Base.Bits.{mask_digits, width_pos}
use etcs.Base.Memory.{size_mod}

unfoldable pub align_up : ℕ → ℕ → ℕ
align_up x a = bit_and (x + a - 1) (size_mod - a)

-- The mask of `j` ones above `k` zeros.
abbrev high_mask : ℕ → ℕ → ℕ
high_mask j k = 2 ^ k * (2 ^ j - 1)

div_twice : (x p : ℕ) → 0 < p → x / (2 * p) ≡ x / 2 / p
div_twice x p h = grind arith

quotient_lt : (x p q : ℕ) → x < p * q → x / p < q
quotient_lt x p q h = grind arith

zero_field : (p q : ℕ) → 0 < p → 0 < q → 0 / p % q * p ≡ 0
zero_field p q h k = grind arith

twice_mask : (p m : ℕ) → p * 2 * m ≡ 2 * (p * m)
twice_mask p m = grind arith

twice_field : (f p : ℕ) → f * (p * 2) ≡ f * p * 2
twice_field f p = grind arith

high_mask_step : (j k : ℕ) → high_mask j (suc k) ≡ 2 * high_mask j k
high_mask_step j k = ap (λ (p : ℕ). p * (2 ^ j - 1)) (pow-suc 2 k) ∙ twice_mask (2 ^ k) (2 ^ j - 1)

field_step : (j k x : ℕ) → x / 2 ^ suc k % 2 ^ j * 2 ^ suc k ≡ x / 2 / 2 ^ k % 2 ^ j * 2 ^ k * 2
field_step j k x =
    let twice : 2 ^ suc k ≡ 2 * 2 ^ k = omega (arith, pow-suc 2 k) in
    ap (λ (p : ℕ). x / p % 2 ^ j * 2 ^ suc k) twice
    ∙ ap (λ (y : ℕ). y % 2 ^ j * 2 ^ suc k) (div_twice x (2 ^ k) (width_pos k))
    ∙ ap (λ (p : ℕ). x / 2 / 2 ^ k % 2 ^ j * p) (pow-suc 2 k)
    ∙ twice_field (x / 2 / 2 ^ k % 2 ^ j) (2 ^ k)

high_digits :
    (rounds j k x : ℕ)
    → x ≤ rounds
    → digits (λ y. zero) min rounds x (high_mask j k) ≡ x / 2 ^ k % 2 ^ j * 2 ^ k
high_digits rounds j zero x h =
    let one : 2 ^ 0 * (2 ^ j - 1) ≡ 2 ^ j - 1 = omega arith in
    let div_one : x / 1 ≡ x = omega arith in
    let times_one : x % 2 ^ j ≡ x % 2 ^ j * 1 = omega arith in
    ap (digits (λ y. zero) min rounds x) one
    ∙ mask_digits rounds j x h
    ∙ times_one
    ∙ sym (ap (λ (y : ℕ). y % 2 ^ j * 1) div_one)
high_digits zero j (suc k) zero h =
    sym (zero_field (2 ^ suc k) (2 ^ j) (width_pos (suc k)) (width_pos j))
high_digits zero j (suc k) (suc x) h = absurd (omega arith)
high_digits (suc rounds) j (suc k) zero h =
    sym (zero_field (2 ^ suc k) (2 ^ j) (width_pos (suc k)) (width_pos j))
high_digits (suc rounds) j (suc k) (suc x) h =
    let half : high_mask j (suc k) / 2 ≡ high_mask j k = omega (arith, high_mask_step j k) in
    omega (
      arith,
      high_mask_step j k,
      field_step j k (suc x),
      ap (digits (λ y. zero) min rounds (suc x / 2)) half,
      high_digits rounds j k (suc x / 2) (omega arith),
    )

-- In 64 bits the mask of an alignment clears exactly the low bits.
pub bit_and-high_mask :
    (j k x : ℕ) → x < 2 ^ k * 2 ^ j → bit_and x (high_mask j k) ≡ x / 2 ^ k * 2 ^ k
bit_and-high_mask j k x h =
    bit_and-bitwise x (high_mask j k)
    ∙ high_digits x j k x (omega arith)
    ∙ ap (λ (y : ℕ). y * 2 ^ k) (mod-eq_of_lt (quotient_lt x (2 ^ k) (2 ^ j) h))

pow-add : (k j : ℕ) → 2 ^ k * 2 ^ j ≡ 2 ^ (k + j)
pow-add zero j =
    let one : 1 * 2 ^ j ≡ 2 ^ j = omega arith in
    let sum : j ≡ 0 + j = omega arith in one ∙ ap (λ (e : ℕ). 2 ^ e) sum
pow-add (suc k) j =
    let sum : suc (k + j) ≡ suc k + j = omega arith in
    ap (λ (p : ℕ). p * 2 ^ j) (pow-suc 2 k)
    ∙ regroup (2 ^ k) (2 ^ j)
    ∙ ap (λ (p : ℕ). p * 2) (pow-add k j)
    ∙ sym (pow-suc 2 (k + j))
    ∙ ap (λ (e : ℕ). 2 ^ e) sum
  where
    regroup : (p q : ℕ) → p * 2 * q ≡ p * q * 2
    regroup p q = grind arith

times_suc : (p q : ℕ) → p * suc q ≡ p * q + p
times_suc p q = grind arith

mask_of_mod : (p q m : ℕ) → 0 < q → p * q ≡ m → p * (q - 1) ≡ m - p
mask_of_mod p zero m h e = absurd (omega arith)
mask_of_mod p (suc q) m h e =
    let pred : suc q - 1 ≡ q = omega arith in
    ap (λ (r : ℕ). p * r) pred ∙ omega (arith, times_suc p q)

-- What rounding up gives: the next multiple of the alignment.
pub record IsNextMultiple (x a r : ℕ) : Type 0 where
  pub multiple : r % a ≡ 0
  pub above : x ≤ r
  pub near : r < x + a

round_down : (x a : ℕ) → 0 < a → IsNextMultiple x a ((x + a - 1) / a * a)
round_down x a h = record { multiple = grind arith; above = grind arith; near = grind arith }

pub align_up-IsNextMultiple :
    (x j k : ℕ) → j + k ≡ 64 → x + 2 ^ k ≤ size_mod → IsNextMultiple x (2 ^ k) (align_up x (2 ^ k))
unfolding align_up
align_up-IsNextMultiple x j k e h =
    let whole : 2 ^ k * 2 ^ j ≡ size_mod = pow-add k j ∙ ap (λ (i : ℕ). 2 ^ i) (swapped ∙ e) in
    let mask : high_mask j k ≡ size_mod - 2 ^ k =
      mask_of_mod (2 ^ k) (2 ^ j) size_mod (width_pos j) whole in
    let below : x + 2 ^ k - 1 < 2 ^ k * 2 ^ j = omega (arith, whole, width_pos k) in
    subst (IsNextMultiple x (2 ^ k))
      (sym (bit_and-high_mask j k (x + 2 ^ k - 1) below) ∙ ap (bit_and (x + 2 ^ k - 1)) mask)
      (round_down x (2 ^ k) (width_pos k))
  where
    swapped : k + j ≡ j + k
    swapped = omega arith
