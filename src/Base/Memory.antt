-- ===== src/Base/Memory.antt =====
-- The C library's memory functions on byte lists, and `size_t` arithmetic.
use Prim.Native.Nat.{compare, Ordering}
use etcs.Base.{
  ℕ, zero, suc, ◌+◌, ◌-◌, ◌%◌, ◌^◌, ◌≤◌, ◌<◌, ◌≡◌, refl, ap, ◌∙◌, List, [], ◌∷◌, ◌++◌, arith, ◌==◌,
  if◌then◌else◌, length, take, set,
}

abbrev pub size_mod : ℕ
size_mod = 2 ^ 64

-- `size_t` and `uint64_t` addition and subtraction wrap.
abbrev pub add_size : ℕ → ℕ → ℕ
add_size a b = (a + b) % size_mod

abbrev pub sub_size : ℕ → ℕ → ℕ
sub_size a b = (a + size_mod - b) % size_mod

-- The length of the string that begins at a byte.
abbrev pub strlen : List ℕ → ℕ
strlen [] = 0
strlen (c ∷ cs) = if c == 0 then 0 else suc (strlen cs)

-- The bytes of a C string, without its terminator.
abbrev pub c_str : List ℕ → List ℕ
c_str cs = take (strlen cs) cs

-- `memcmp` of two runs of the given length.
abbrev pub memcmp : ℕ → List ℕ → List ℕ → Ordering
memcmp zero xs ys = Ordering.eq
memcmp (suc n) [] ys = Ordering.eq
memcmp (suc n) (x ∷ xs) [] = Ordering.eq
memcmp (suc n) (x ∷ xs) (y ∷ ys) = elim (compare x y) [
  | Ordering.lt ↦ Ordering.lt
  | Ordering.eq ↦ memcmp n xs ys
  | Ordering.gt ↦ Ordering.gt
]

module _ {ℓ} {A : Type ℓ} where
  -- `memcpy(dst + k, src, length src)`; what lies past the end of `dst` is not written.
  unfoldable pub memcpy : List A → ℕ → List A → List A
  memcpy [] k src = []
  memcpy (x ∷ xs) (suc k) src = x ∷ memcpy xs k src
  memcpy (x ∷ xs) zero [] = x ∷ xs
  memcpy (x ∷ xs) zero (d ∷ src) = d ∷ memcpy xs zero src

  pub length-memcpy : (xs : List A) (k : ℕ) (src : List A) → length (memcpy xs k src) ≡ length xs
  unfolding memcpy
  length-memcpy [] k src = refl
  length-memcpy (x ∷ xs) (suc k) src = ap suc (length-memcpy xs k src)
  length-memcpy (x ∷ xs) zero [] = refl
  length-memcpy (x ∷ xs) zero (d ∷ src) = ap suc (length-memcpy xs zero src)

  -- A run copied to the end of a prefix extends it.
  pub take-memcpy :
      (xs : List A) (k : ℕ) (src : List A)
      → k + length src ≤ length xs
      → take (k + length src) (memcpy xs k src) ≡ take k xs ++ src
  unfolding memcpy
  take-memcpy [] zero [] h = refl
  take-memcpy [] (suc k) src h = absurd (omega arith)
  take-memcpy [] zero (d ∷ src) h = absurd (omega arith)
  take-memcpy (x ∷ xs) (suc k) src h =
      ap (λ m. take m (x ∷ memcpy xs k src)) step ∙ ap (◌∷◌ x) (take-memcpy xs k src (omega arith))
    where
      step : suc k + length src ≡ suc (k + length src)
      step = omega arith
  take-memcpy (x ∷ xs) zero [] h = refl
  take-memcpy (x ∷ xs) zero (d ∷ src) h =
      ap (λ m. take m (d ∷ memcpy xs zero src)) step
      ∙ ap (◌∷◌ d) (take-memcpy xs zero src (omega arith))
    where
      step : 0 + suc (length src) ≡ suc (0 + length src)
      step = omega arith

  -- A write at or past the end of a prefix leaves the prefix.
  pub take-set_above : (xs : List A) (k i : ℕ) (v : A) → k ≤ i → take k (set xs i v) ≡ take k xs
  take-set_above xs zero i v h = refl
  take-set_above [] (suc k) i v h = refl
  take-set_above (x ∷ xs) (suc k) zero v h = absurd (omega arith)
  take-set_above (x ∷ xs) (suc k) (suc i) v h = ap (◌∷◌ x) (take-set_above xs k i v (omega arith))

  pub take-set_end :
      (xs : List A) (k : ℕ) (v : A)
      → k < length xs
      → take (suc k) (set xs k v) ≡ take k xs ++ v ∷ []
  take-set_end [] k v h = absurd (omega arith)
  take-set_end (x ∷ xs) zero v h = refl
  take-set_end (x ∷ xs) (suc k) v h = ap (◌∷◌ x) (take-set_end xs k v (omega arith))
