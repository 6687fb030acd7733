-- ===== src/Tags.antt =====
-- core/Bundles.h, TagMask: a set of tag indices below TAG_BITS, as words of 64 bits.
pub mod Words
pub mod Sets
mod Tests
use Prim.Native.Nat.{bit_or}
use etcs.Base.{
  ℕ, zero, suc, ◌/◌, ◌%◌, ◌^◌, ◌-◌, Bool, true, false, not, ◌&&◌, ◌||◌, List, [], ◌∷◌, ltb, ◌==◌,
  if◌then◌else◌, replicate, set, get_or, bit_and,
}

-- `TAG_WORDS`
abbrev pub tag_words : ℕ
tag_words = 4

-- `TAG_BITS`
abbrev pub tag_bits : ℕ
tag_bits = 256

-- The words `w`, each below 2 ^ 64.
abbrev pub TagMask : Type 0
TagMask = List ℕ

-- `w >> k`
abbrev pub shift_right : ℕ → ℕ → ℕ
shift_right w zero = w
shift_right w (suc k) = shift_right (w / 2) k

unfoldable pub no_tags : TagMask
no_tags = replicate tag_words 0

unfoldable pub bit : ℕ → TagMask
unfolding no_tags
bit index = if ltb index tag_bits then set no_tags (index / 64) (2 ^ (index % 64)) else no_tags

unfoldable pub all : TagMask
all = replicate tag_words (2 ^ 64 - 1)

unfoldable pub test : TagMask → ℕ → Bool
test m index =
    ltb index tag_bits && not (bit_and (shift_right (get_or m (index / 64) 0) (index % 64)) 1 == 0)

unfoldable pub any : TagMask → Bool
any [] = false
any (w ∷ ws) = if w == 0 then any ws else true

-- The loop over the words of both masks.
unfoldable pub intersects : TagMask → TagMask → Bool
intersects [] o = false
intersects (w ∷ ws) [] = false
intersects (w ∷ ws) (v ∷ vs) =
    let rest = intersects ws vs in if bit_and w v == 0 then rest else true

unfoldable pub union : TagMask → TagMask → TagMask
union [] o = []
union (w ∷ ws) [] = w ∷ ws
union (w ∷ ws) (v ∷ vs) = bit_or w v ∷ union ws vs
