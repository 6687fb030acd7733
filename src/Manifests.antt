-- ===== src/Manifests.antt =====
-- core/Bundles.h, `compareManifests`: whether two modules were built against the same interfaces. A
-- manifest is the list of its pairs; what is printed is left out.
pub mod Symmetric
mod Tests
use etcs.Base.{
  Bool, true, false, not, ◌&&◌, ◌||◌, List, [], ◌∷◌, Option, none, some, if◌then◌else◌, take,
  length,
}
use etcs.Base.Strings.{Str, codes, same}

-- Pairs of a header's key and its hash.
abbrev pub Manifest : Type 0
Manifest = List (Str × Str)

-- `key.rfind(prefix, 0) == 0`
unfoldable pub starts_with : Str → Str → Bool
unfolding same
starts_with prefix key = same (take (length prefix) key) prefix

unfoldable pub is_contract : Str → Bool
unfolding starts_with
is_contract key =
    starts_with (codes "ONTOLOGY:") key
    || starts_with (codes "HEADER:") key
    || starts_with (codes "CORE:") key

-- `ours.count(key)` and `ours[key]`
unfoldable pub hash_of : Str → Manifest → Option Str
unfolding same
hash_of key [] = none
hash_of key ((k, hash) ∷ rest) =
    let other = hash_of key rest in if same k key then some hash else other

-- Whether a row fails: both have the key, and a contract's first eight characters differ.
unfoldable pub row_fails : Str → Option Str → Str → Bool
unfolding same is_contract
row_fails key none their_hash = false
row_fails key (some our_hash) their_hash =
    not (same (take 8 our_hash) (take 8 their_hash)) && is_contract key

unfoldable pub compare_manifests : Manifest → Manifest → Bool
unfolding row_fails hash_of
compare_manifests ours [] = false
compare_manifests ours ((key, their_hash) ∷ theirs) =
    row_fails key (hash_of key ours) their_hash || compare_manifests ours theirs
