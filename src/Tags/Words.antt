-- ===== src/Tags/Words.antt =====
-- core/Bundles.h, the words of a TagMask: `&` of two words is zero exactly if no bit is in both.
use Prim.Native.Nat.{digits, bit_and-bitwise}
use native.Mathlib.Nat.{pow-suc}
use etcs.Base.{
  ℕ, zero, suc, ◌/◌, ◌%◌, ◌^◌, ◌≤◌, ◌<◌, min, bit_and, ◌≡◌, refl, arith, ◌==◌, Bool-cases, inl, inr,
}
use etcs.Tags.{shift_right}

abbrev common : ℕ → ℕ → ℕ → ℕ
common rounds a b = digits (λ y. zero) min rounds a b

-- A bit that two words share.
abbrev pub Share : ℕ → ℕ → ℕ → Type 0
Share a b k = (shift_right a k % 2 ≡ 1) × (shift_right b k % 2 ≡ 1)

common-Share :
    (rounds width a b : ℕ)
    → a ≤ rounds
    → a < 2 ^ width
    → 0 < common rounds a b
    → (k : ℕ) × (k < width) × Share a b k
common-Share zero width zero b le below h = absurd (omega arith)
common-Share zero width (suc a) b le below h = absurd (omega arith)
common-Share (suc rounds) width zero b le below h = absurd (omega arith)
common-Share (suc rounds) zero (suc a) b le below h = absurd (omega arith)
common-Share (suc rounds) (suc width) (suc a) b le below h =
    elim (Bool-cases (min (suc a % 2) (b % 2) == 0)) [
      | inl e ↦
          let lowest : min (suc a % 2) (b % 2) ≡ 0 = ground (arith, e) in
          let (k, small, share) =
            common-Share rounds width (suc a / 2) (b / 2) (omega arith)
              (omega (arith, pow-suc 2 width)) (omega (arith, h, lowest)) in
          (suc k, omega arith, share)
      | inr e ↦
          let lowest : 0 < min (suc a % 2) (b % 2) = ground (arith, e) in
          (0, omega arith, (omega (arith, lowest), omega (arith, lowest)))
    ]

no_bits : (k : ℕ) → shift_right 0 k ≡ 0
no_bits zero = refl
no_bits (suc k) = no_bits k

Share-common : (k rounds a b : ℕ) → a ≤ rounds → Share a b k → 0 < common rounds a b
Share-common zero zero zero b le (p, q) = absurd (omega arith)
Share-common zero zero (suc a) b le (p, q) = absurd (omega arith)
Share-common zero (suc rounds) zero b le (p, q) = absurd (omega arith)
Share-common zero (suc rounds) (suc a) b le (p, q) = omega (arith, p, q)
Share-common (suc k) zero zero b le (p, q) = absurd (omega (arith, p, no_bits (suc k)))
Share-common (suc k) zero (suc a) b le (p, q) = absurd (omega arith)
Share-common (suc k) (suc rounds) zero b le (p, q) = absurd (omega (arith, p, no_bits (suc k)))
Share-common (suc k) (suc rounds) (suc a) b le (p, q) =
    omega (arith, Share-common k rounds (suc a / 2) (b / 2) (omega arith) (p, q))

-- Where `&` of two words is not zero, some bit is in both.
pub bit_and-Share : (a b : ℕ) → a < 2 ^ 64 → 0 < bit_and a b → (k : ℕ) × (k < 64) × Share a b k
bit_and-Share a b below h =
    common-Share a 64 a b (omega arith) below (omega (arith, bit_and-bitwise a b))

pub Share-bit_and : (a b k : ℕ) → Share a b k → 0 < bit_and a b
Share-bit_and a b k s = omega (arith, bit_and-bitwise a b, Share-common k a a b (omega arith) s)
