-- ===== src/Manifests/Tests.antt =====
-- Two manifests, and where the theorem applies.
use etcs.Base.{◌≡◌, refl, true, false, [], ◌∷◌, ◌↔◌}
use etcs.Base.Strings.{codes}
use etcs.Manifests.{Manifest, hash_of, compare_manifests}
use etcs.Manifests.Symmetric.{Conflict, compare_manifests_symmetric}

abbrev ours : Manifest
ours = (codes "CORE:RIDList.h", codes "0123456789") ∷ (codes "README", codes "11111111") ∷ []

-- A hash that differs after eight characters, and a header that is no contract.
abbrev agreeing : Manifest
agreeing = (codes "CORE:RIDList.h", codes "01234567ff") ∷ (codes "README", codes "22222222") ∷ []

abbrev conflicting : Manifest
conflicting = (codes "README", codes "11111111") ∷ (codes "CORE:RIDList.h", codes "0123") ∷ []

agrees : compare_manifests ours agreeing ≡ false
unfolding compare_manifests
agrees = refl

conflicts : compare_manifests ours conflicting ≡ true
unfolding compare_manifests
conflicts = refl

compare_manifests_symmetric_example :
    ((compare_manifests ours conflicting ≡ true) ↔ Conflict ours conflicting)
    × (compare_manifests ours conflicting ≡ compare_manifests conflicting ours)
unfolding hash_of
compare_manifests_symmetric_example =
    compare_manifests_symmetric ours conflicting (refl, (refl, tt)) (refl, (refl, tt))
