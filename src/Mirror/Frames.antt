-- ===== src/Mirror/Frames.antt =====
-- core/MirrorBuffer.h, a frame on the wire: the length in the eight bytes of a little-endian
-- `size_t`, then the payload.
use mathlib.Core.List.{append_assoc}
use etcs.Base.{
  ℕ, zero, suc, ◌+◌, ◌*◌, ◌/◌, ◌%◌, ◌^◌, ◌<◌, ◌≤◌, ◌≡◌, refl, sym, ap, ◌∙◌, List, [], ◌∷◌, ◌++◌,
  length, take, drop, arith, length-append, length-drop,
}
use etcs.Buffer.Contents.{drop-append, drop-drop}

-- The bytes of a number in memory, the lowest first.
unfoldable pub le_bytes : ℕ → ℕ → List ℕ
le_bytes zero v = []
le_bytes (suc k) v = v % 256 ∷ le_bytes k (v / 256)

unfoldable pub read_le : List ℕ → ℕ
read_le [] = 0
read_le (b ∷ bs) = b + 256 * read_le bs

abbrev pub frame : List ℕ → List ℕ
frame payload = le_bytes 8 (length payload) ++ payload

abbrev pub wire : List (List ℕ) → List ℕ
wire [] = []
wire (payload ∷ payloads) = frame payload ++ wire payloads

pub length-le_bytes : (k v : ℕ) → length (le_bytes k v) ≡ k
unfolding le_bytes
length-le_bytes zero v = refl
length-le_bytes (suc k) v = ap suc (length-le_bytes k (v / 256))

abbrev values : ℕ → ℕ
values zero = 1
values (suc k) = 256 * values k

read_le-le_bytes_upto : (k v : ℕ) → v < values k → read_le (le_bytes k v) ≡ v
unfolding le_bytes read_le
read_le-le_bytes_upto zero v h = omega arith
read_le-le_bytes_upto (suc k) v h =
    omega (arith, read_le-le_bytes_upto k (v / 256) (quotient (values k) h))
  where
    quotient : (w : ℕ) → v < 256 * w → v / 256 < w
    quotient w less = omega arith

-- A length that a `size_t` can hold is read back from its bytes.
pub read_le-le_bytes : (v : ℕ) → v < 2 ^ 64 → read_le (le_bytes 8 v) ≡ v
read_le-le_bytes v h = read_le-le_bytes_upto 8 v (omega arith)

module _ {ℓ} {A : Type ℓ} where
  pub take-nil : (k : ℕ) → take {A = A} k [] ≡ []
  take-nil zero = refl
  take-nil (suc k) = refl

  -- A run and the one behind it are one run.
  pub take-take-drop : (j k : ℕ) (xs : List A) → take j xs ++ take k (drop j xs) ≡ take (j + k) xs
  take-take-drop zero k xs = let e : k ≡ 0 + k = omega arith in ap (λ w. take w xs) e
  take-take-drop (suc j) k [] = take-nil k ∙ sym (take-nil (suc j + k))
  take-take-drop (suc j) k (x ∷ xs) =
      let e : suc (j + k) ≡ suc j + k = omega arith in
      ap (◌∷◌ x) (take-take-drop j k xs) ∙ ap (λ w. take w (x ∷ xs)) e

  pub take-append_le : (k : ℕ) (xs ys : List A) → k ≤ length xs → take k (xs ++ ys) ≡ take k xs
  take-append_le zero xs ys h = refl
  take-append_le (suc k) [] ys h = absurd (omega arith)
  take-append_le (suc k) (x ∷ xs) ys h = ap (◌∷◌ x) (take-append_le k xs ys (omega arith))

  take-append_exact : (k : ℕ) (xs ys : List A) → length xs ≡ k → take k (xs ++ ys) ≡ xs
  take-append_exact zero [] ys h = refl
  take-append_exact zero (x ∷ xs) ys h = absurd (omega arith)
  take-append_exact (suc k) [] ys h = absurd (omega arith)
  take-append_exact (suc k) (x ∷ xs) ys h = ap (◌∷◌ x) (take-append_exact k xs ys (omega arith))

  drop-append_exact : (k : ℕ) (xs ys : List A) → length xs ≡ k → drop k (xs ++ ys) ≡ ys
  drop-append_exact zero [] ys h = refl
  drop-append_exact zero (x ∷ xs) ys h = absurd (omega arith)
  drop-append_exact (suc k) [] ys h = absurd (omega arith)
  drop-append_exact (suc k) (x ∷ xs) ys h = drop-append_exact k xs ys (omega arith)

pub length-frame : (f : List ℕ) → length (frame f) ≡ 8 + length f
length-frame f =
    omega (arith, length-append (le_bytes 8 (length f)) f, length-le_bytes 8 (length f))

-- The bytes at hand begin a stream whose first frame carries a payload.
module _ (u pipe f rest : List ℕ) (stream : u ++ pipe ≡ frame f ++ rest) where
  split : u ++ pipe ≡ le_bytes 8 (length f) ++ (f ++ rest)
  split = stream ∙ append_assoc (le_bytes 8 (length f)) f rest

  -- Where the length is at hand, it is that of the payload.
  pub read_le-stream : length f < 2 ^ 64 → 8 ≤ length u → read_le (take 8 u) ≡ length f
  read_le-stream small h =
      ap read_le (
        sym (take-append_le 8 u pipe h)
        ∙ ap (take 8) split
        ∙ take-append_exact 8 (le_bytes 8 (length f)) (f ++ rest) (length-le_bytes 8 (length f)))
      ∙ read_le-le_bytes (length f) small

  behind_length : 8 ≤ length u → drop 8 u ++ pipe ≡ f ++ rest
  behind_length h =
      sym (drop-append 8 u pipe h)
      ∙ ap (drop 8) split
      ∙ drop-append_exact 8 (le_bytes 8 (length f)) (f ++ rest) (length-le_bytes 8 (length f))

  enough : 8 + length f ≤ length u → length f ≤ length (drop 8 u)
  enough h = omega (arith, length-drop 8 u)

  -- Where the frame is at hand, its payload stands behind the length.
  pub take-stream : 8 + length f ≤ length u → take (length f) (drop 8 u) ≡ f
  take-stream h =
      sym (take-append_le (length f) (drop 8 u) pipe (enough h))
      ∙ ap (take (length f)) (behind_length (omega arith))
      ∙ take-append_exact (length f) f rest refl

  -- And the rest of the stream behind that.
  pub drop-stream : 8 + length f ≤ length u → drop (8 + length f) u ++ pipe ≡ rest
  drop-stream h =
      ap (λ t. t ++ pipe) (sym (drop-drop 8 (length f) u))
      ∙ sym (drop-append (length f) (drop 8 u) pipe (enough h))
      ∙ ap (drop (length f)) (behind_length (omega arith))
      ∙ drop-append_exact (length f) f rest refl
