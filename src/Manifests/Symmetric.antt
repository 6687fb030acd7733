-- ===== src/Manifests/Symmetric.antt =====
-- core/Bundles.h, `compareManifests` on two maps: it finds a conflict exactly if there is one,
-- whichever side asks.
use etcs.Base.{
  ◌≡◌, refl, sym, ap, ap₂, ◌∙◌, Bool, true, false, not, ◌&&◌, ◌||◌, [], ◌∷◌, Option, none, some,
  ◌↔◌, ◌⊎◌, take, Bool-cases, inl, inr,
}
use etcs.Base.Strings.{Str, same}
use etcs.Manifests.{Manifest, hash_of, row_fails, is_contract, compare_manifests}
use etcs.Names.Scoping.{same_self}
use etcs.Scopes.Views.{same_sound}

same_comm : (s t : Str) → same s t ≡ same t s
same_comm s t = elim (Bool-cases (same s t)) [
  | inl e ↦ ap₂ same (same_sound s t e) (sym (same_sound s t e))
  | inr e ↦ elim (Bool-cases (same t s)) [
    | inl g ↦ ap₂ same (sym (same_sound t s g)) (same_sound t s g)
    | inr g ↦ e ∙ sym g
  ]
]

-- No key stands twice.
abbrev pub IsMap : Manifest → Type 0
IsMap [] = Unit {0}
IsMap ((key, hash) ∷ rest) = (hash_of key rest ≡ none) × IsMap rest

-- A contract that both have, with hashes that differ in their first eight characters.
abbrev pub Conflict : Manifest → Manifest → Type 0
Conflict ours theirs =
    (key : Str) × (our_hash : Str) × (their_hash : Str) × (hash_of key ours ≡ some our_hash)
    × (hash_of key theirs ≡ some their_hash)
    × (row_fails key (some our_hash) their_hash ≡ true)

hash_of_here :
    (k hash : Str) (rest : Manifest) (key : Str)
    → same k key ≡ true
    → hash_of key ((k, hash) ∷ rest) ≡ some hash
unfolding hash_of
hash_of_here k hash rest key e = rw e refl

hash_of_later :
    (k hash : Str) (rest : Manifest) (key : Str)
    → same k key ≡ false
    → hash_of key ((k, hash) ∷ rest) ≡ hash_of key rest
unfolding hash_of
hash_of_later k hash rest key e = rw e refl

row_lem :
    (key their_hash : Str) (found : Option Str)
    → row_fails key found their_hash ≡ true
    → (our_hash : Str) × (found ≡ some our_hash) × (row_fails key (some our_hash) their_hash ≡ true)
unfolding row_fails
row_lem key their_hash none e = absurd (cc)
row_lem key their_hash (some h) e = (h, refl, e)

-- A key of the rest is not that of the first pair.
behind_first :
    (k hash : Str) (rest : Manifest) (key h : Str)
    → hash_of k rest ≡ none
    → hash_of key rest ≡ some h
    → hash_of key ((k, hash) ∷ rest) ≡ some h
behind_first k hash rest key h fresh e = elim (Bool-cases (same k key)) [
  | inl same_key ↦
      let here : hash_of key rest ≡ none =
        ap (λ x. hash_of x rest) (sym (same_sound k key same_key)) ∙ fresh in
      absurd (cc)
  | inr other ↦ hash_of_later k hash rest key other ∙ e
]

either : (a b : Bool) → a ≡ true ⊎ b ≡ true → (a || b) ≡ true
either true b e = refl
either false true e = refl
either false false (inl e) = absurd (cc)
either false false (inr e) = absurd (cc)

compare-Conflict :
    (ours theirs : Manifest)
    → IsMap theirs
    → compare_manifests ours theirs ≡ true
    → Conflict ours theirs
unfolding compare_manifests
compare-Conflict ours [] m e = absurd (cc)
compare-Conflict ours ((k, h) ∷ theirs) m e = elim (Bool-cases (row_fails k (hash_of k ours) h)) [
  | inl fails ↦
      let (our_hash, found, bad) = row_lem k h (hash_of k ours) fails in
      (k, our_hash, h, found, hash_of_here k h theirs k (same_self k), bad)
  | inr passes ↦
      let rest : compare_manifests ours theirs ≡ true =
        ap (λ b. b || compare_manifests ours theirs) (sym passes) ∙ e in
      let (key, our_hash, their_hash, a, b, bad) = compare-Conflict ours theirs m.1 rest in
      (key, our_hash, their_hash, a, behind_first k h theirs key their_hash m.0 b, bad)
]

Conflict-compare :
    (ours theirs : Manifest) → Conflict ours theirs → compare_manifests ours theirs ≡ true
unfolding compare_manifests hash_of
Conflict-compare ours [] (key, our_hash, their_hash, a, b, bad) = absurd (cc)
Conflict-compare ours ((k, h) ∷ theirs) (key, our_hash, their_hash, a, b, bad) =
    let rest = Conflict-compare ours theirs in
    elim (Bool-cases (same k key)) [
      | inl same_key ↦
          let same_keys = same_sound k key same_key in
          let hashes : some h ≡ some their_hash = sym (hash_of_here k h theirs key same_key) ∙ b in
          let fails : row_fails k (hash_of k ours) h ≡ true =
            ap (λ x. row_fails x (hash_of x ours) h) same_keys
            ∙ ap (λ o. row_fails key o h) a
            ∙ ap (λ o. row_fails key (some our_hash) (value o)) hashes
            ∙ bad in
          either (row_fails k (hash_of k ours) h) (compare_manifests ours theirs) (inl fails)
      | inr other ↦ either (row_fails k (hash_of k ours) h) (compare_manifests ours theirs) (
          inr (
            rest (key, our_hash, their_hash, a, sym (hash_of_later k h theirs key other) ∙ b, bad)))
    ]
  where
    value : Option Str → Str
    value none = []
    value (some s) = s

row_fails_comm : (key a b : Str) → row_fails key (some a) b ≡ row_fails key (some b) a
unfolding row_fails
row_fails_comm key a b = ap (λ t. not t && is_contract key) (same_comm (take 8 a) (take 8 b))

turned : (a b : Manifest) → Conflict a b → Conflict b a
turned a b (key, x, y, p, q, bad) = (key, y, x, q, p, row_fails_comm key y x ∙ bad)

-- On two manifests without a key that stands twice, a mismatch is reported exactly if some contract
-- that both have differs in the first eight characters of its hash, and the other side reports the
-- same.
pub compare_manifests_symmetric :
    (ours theirs : Manifest)
    → IsMap ours
    → IsMap theirs
    → ((compare_manifests ours theirs ≡ true) ↔ Conflict ours theirs)
      × (compare_manifests ours theirs ≡ compare_manifests theirs ours)
compare_manifests_symmetric ours theirs m m' = (
  (compare-Conflict ours theirs m', Conflict-compare ours theirs),
  elim (Bool-cases (compare_manifests ours theirs)) [
    | inl e ↦
        e
        ∙ sym
            (Conflict-compare theirs ours (turned ours theirs (compare-Conflict ours theirs m' e)))
    | inr e ↦ elim (Bool-cases (compare_manifests theirs ours)) [
      | inl g ↦
          Conflict-compare ours theirs (turned theirs ours (compare-Conflict theirs ours m g))
          ∙ sym g
      | inr g ↦ e ∙ sym g
    ]
  ],
)
