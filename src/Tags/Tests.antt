-- ===== src/Tags/Tests.antt =====
-- Masks of one tag and of two.
use etcs.Base.{ℕ, ◌≡◌, ◌↔◌, refl, true, false, [], ◌∷◌, arith}
use etcs.Tags.{TagMask, bit, union, intersects, test}
use etcs.Tags.Sets.{IsMask, intersects_iff}

abbrev pair_of_tags : TagMask
pair_of_tags = 8 ∷ 0 ∷ 0 ∷ 256 ∷ []

abbrev last_tag : TagMask
last_tag = 0 ∷ 0 ∷ 0 ∷ 256 ∷ []

pair_of_tags_lem : union (bit 3) (bit 200) ≡ pair_of_tags
unfolding union bit
pair_of_tags_lem = refl

last_tag_lem : bit 200 ≡ last_tag
unfolding bit
last_tag_lem = refl

apart : intersects pair_of_tags (bit 72) ≡ false
unfolding intersects bit
apart = refl

pair_of_tags-IsMask : IsMask pair_of_tags
pair_of_tags-IsMask = record {
  size = refl;
  words = (omega arith, (omega arith, (omega arith, (omega arith, tt))));
}

last_tag-IsMask : IsMask last_tag
last_tag-IsMask = record {
  size = refl;
  words = (omega arith, (omega arith, (omega arith, (omega arith, tt))));
}

intersects_iff_example :
    (intersects pair_of_tags last_tag ≡ true)
    ↔ ((i : ℕ) × (test pair_of_tags i ≡ true) × (test last_tag i ≡ true))
intersects_iff_example = intersects_iff pair_of_tags last_tag pair_of_tags-IsMask last_tag-IsMask
