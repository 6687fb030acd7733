-- ===== src/Tags/Sets.antt =====
-- core/Bundles.h, TagMask as the set of the indices of its bits.
use etcs.Base.{
  ℕ, zero, suc, ◌+◌, ◌*◌, ◌/◌, ◌%◌, ◌^◌, ◌<◌, ◌≡◌, ◌↔◌, sym, subst, true, List, [], ◌∷◌, length,
  get_or, bit_and, ◌==◌, arith, Bool-cases, inl, inr,
}
use etcs.Base.Bits.{bit_and-mask}
use etcs.Tags.{TagMask, tag_words, tag_bits, shift_right, test, intersects}
use etcs.Tags.Words.{Share, bit_and-Share, Share-bit_and}

abbrev AllWords : List ℕ → Type 0
AllWords [] = Unit {0}
AllWords (w ∷ ws) = (w < 2 ^ 64) × AllWords ws

-- As many words as a mask has, each of 64 bits.
pub record IsMask (m : TagMask) : Type 0 where
  pub size : length m ≡ tag_words
  pub words : AllWords m

-- A bit that two masks share, in the word of that number.
abbrev ShareAt : TagMask → TagMask → ℕ → ℕ → Type 0
ShareAt m o j k = Share (get_or m j 0) (get_or o j 0) k

intersects-ShareAt :
    (m o : TagMask)
    → AllWords m
    → intersects m o ≡ true
    → (j : ℕ) × (k : ℕ) × (j < length m) × (k < 64) × ShareAt m o j k
unfolding intersects
intersects-ShareAt [] o a h = absurd (cc)
intersects-ShareAt (w ∷ ws) [] a h = absurd (cc)
intersects-ShareAt (w ∷ ws) (v ∷ vs) a h = elim (Bool-cases (bit_and w v == 0)) [
  | inl e ↦
      let later : intersects ws vs ≡ true = ground (arith, h, e) in
      let (j, k, inside, small, share) = intersects-ShareAt ws vs a.1 later in
      (suc j, k, omega arith, small, share)
  | inr e ↦
      let (k, small, share) = bit_and-Share w v a.0 (ground (arith, e)) in
      (0, k, omega arith, small, share)
]

ShareAt-intersects :
    (m o : TagMask) (j k : ℕ)
    → j < length m
    → length m ≡ length o
    → ShareAt m o j k
    → intersects m o ≡ true
unfolding intersects
ShareAt-intersects [] o j k inside e s = absurd (omega arith)
ShareAt-intersects (w ∷ ws) [] j k inside e s = absurd (omega arith)
ShareAt-intersects (w ∷ ws) (v ∷ vs) zero k inside e s = ground (arith, Share-bit_and w v k s)
ShareAt-intersects (w ∷ ws) (v ∷ vs) (suc j) k inside e s =
    ground (arith, ShareAt-intersects ws vs j k (omega arith) (omega (arith, e)) s)

bit_of : TagMask → ℕ → ℕ
bit_of m i = shift_right (get_or m (i / 64) 0) (i % 64) % 2

-- An index is in a mask exactly if it is below the bound and its bit is set.
test_iff : (m : TagMask) (i : ℕ) → (test m i ≡ true) ↔ ((i < tag_bits) × (bit_of m i ≡ 1))
unfolding test bit_of
test_iff m i =
    let low = bit_and-mask 1 (shift_right (get_or m (i / 64) 0) (i % 64)) in
    (λ h. ground (arith, low, h), λ (below, h). ground (arith, low, h, below))

-- Two masks, of as many words as a mask has and each word of 64 bits, intersect exactly if some index
-- is in both.
pub intersects_iff :
    (m o : TagMask)
    → IsMask m
    → IsMask o
    → (intersects m o ≡ true) ↔ ((i : ℕ) × (test m i ≡ true) × (test o i ≡ true))
unfolding bit_of
intersects_iff m o mask other = (
  λ h.
      let (j, k, inside, small, share) = intersects-ShareAt m o mask.words h in
      let i = j * 64 + k in
      let word : i / 64 ≡ j = omega arith in
      let place : i % 64 ≡ k = omega arith in
      let below : i < tag_bits = omega (arith, inside, mask.size) in
      let at : ShareAt m o (i / 64) (i % 64) =
        subst (λ x. ShareAt m o x (i % 64)) (sym word) (subst (ShareAt m o j) (sym place) share) in
      (i, (test_iff m i).1 (below, at.0), (test_iff o i).1 (below, at.1)),
  λ (i, l, r).
      let (below, p) = (test_iff m i).0 l in
      let (under, q) = (test_iff o i).0 r in
      ShareAt-intersects m o (i / 64) (i % 64) (omega (arith, below, mask.size))
        (omega (arith, mask.size, other.size)) (p, q),
)
