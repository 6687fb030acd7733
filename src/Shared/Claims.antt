-- ===== src/Shared/Claims.antt =====
-- core/SharedPage.h, the regions that uninterrupted calls of `acquireWrite` claim.
use etcs.Base.{ℕ, ◌+◌, ◌≤◌, ◌≡◌, List, [], ◌∷◌, Option, none, some}
use etcs.Shared.{SharedPage, acquire_write}

-- The regions claimed by calls for these sizes, and the page after them.
abbrev pub claimed : Option ℕ → ℕ → List (ℕ × ℕ) → List (ℕ × ℕ)
claimed none size regions = regions
claimed (some offset) size regions = (offset, size) ∷ regions

abbrev pub claims : SharedPage → List ℕ → List (ℕ × ℕ) × SharedPage
claims p [] = ([], p)
claims p (size ∷ sizes) =
    let now = acquire_write p size in
    let later = claims now.1 sizes in (claimed now.0 size later.0, later.1)

-- Regions that follow one another without a gap or an overlap.
abbrev pub ArePacked : ℕ → List (ℕ × ℕ) → ℕ → Type 0
ArePacked from [] upto = from ≡ upto
ArePacked from ((offset, size) ∷ regions) upto =
    (offset ≡ from) × ArePacked (from + size) regions upto

-- What one call did: nothing, or the next bytes of the page are claimed.
Refused : SharedPage → Option ℕ × SharedPage → Type 0
Refused p r = (r.0 ≡ none) × (r.1 ≡ p)

Claimed : SharedPage → ℕ → Option ℕ × SharedPage → Type 0
Claimed p size r =
    (r.0 ≡ some p.written)
    × (r.1 ≡ record p { written = p.written + size })
    × (p.written + size ≤ p.capacity)
