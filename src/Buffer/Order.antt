-- ===== src/Buffer/Order.antt =====
-- The comparisons of buffers are those of their contents, byte by byte.
use Prim.Native.Nat.{compare, Ordering}
use etcs.Base.{
  ℕ, zero, suc, ◌≤◌, ◌≡◌, ◌⊎◌, ◌↔◌, refl, ap, Bool, true, false, List, [], ◌∷◌, length, take, ltb,
  arith, min, if◌then◌else◌,
}
use etcs.Base.Memory.{memcmp}
use etcs.Buffer.{TBuffer, lt, eq}
use etcs.Buffer.Bounds.{IsValid}
use etcs.Buffer.Contents.{contents, length-contents}

-- Dictionary order, a prefix first.
abbrev pub lex : List ℕ → List ℕ → Ordering
lex [] [] = Ordering.eq
lex [] (y ∷ ys) = Ordering.lt
lex (x ∷ xs) [] = Ordering.gt
lex (x ∷ xs) (y ∷ ys) = elim (compare x y) [
  | Ordering.lt ↦ Ordering.lt
  | Ordering.eq ↦ lex xs ys
  | Ordering.gt ↦ Ordering.gt
]

lex_self : (xs : List ℕ) → lex xs xs ≡ Ordering.eq
lex_self [] = refl
lex_self (x ∷ xs) = ground (arith, lex_self xs)

lex-eq : (xs ys : List ℕ) → lex xs ys ≡ Ordering.eq → xs ≡ ys
lex-eq [] [] h = refl
lex-eq [] (y ∷ ys) h = cc
lex-eq (x ∷ xs) [] h = cc
lex-eq (x ∷ xs) (y ∷ ys) h = ground (arith, lex-eq xs ys)

lex_flip : (xs ys : List ℕ) → lex xs ys ≡ Ordering.gt → lex ys xs ≡ Ordering.lt
lex_flip [] [] h = cc
lex_flip [] (y ∷ ys) h = cc
lex_flip (x ∷ xs) [] h = refl
lex_flip (x ∷ xs) (y ∷ ys) h = ground (arith, lex_flip xs ys)

lex-lt : (xs ys : List ℕ) → lex xs ys ≡ Ordering.lt → lex ys xs ≡ Ordering.gt
lex-lt [] [] h = cc
lex-lt [] (y ∷ ys) h = refl
lex-lt (x ∷ xs) [] h = cc
lex-lt (x ∷ xs) (y ∷ ys) h = ground (arith, lex-lt xs ys)

lex_trans :
    (xs ys zs : List ℕ)
    → lex xs ys ≡ Ordering.lt
    → lex ys zs ≡ Ordering.lt
    → lex xs zs ≡ Ordering.lt
lex_trans [] [] zs h k = cc
lex_trans [] (y ∷ ys) [] h k = cc
lex_trans [] (y ∷ ys) (z ∷ zs) h k = refl
lex_trans (x ∷ xs) [] zs h k = cc
lex_trans (x ∷ xs) (y ∷ ys) [] h k = cc
lex_trans (x ∷ xs) (y ∷ ys) (z ∷ zs) h k = ground (arith, lex_trans xs ys zs)

-- The code's two steps, the bytes both have and then the lengths, on arrays of any content.
abbrev by_steps : ℕ → ℕ → Ordering → Ordering
by_steps v w Ordering.lt = Ordering.lt
by_steps v w Ordering.eq = compare v w
by_steps v w Ordering.gt = Ordering.gt

compare-suc : (v w : ℕ) → compare (suc v) (suc w) ≡ compare v w
compare-suc v w = ground arith

memcmp-lex :
    (v w : ℕ) (xs ys : List ℕ)
    → v ≤ length xs
    → w ≤ length ys
    → by_steps v w (memcmp (min v w) xs ys) ≡ lex (take v xs) (take w ys)
memcmp-lex zero zero xs ys h k = refl
memcmp-lex zero (suc w) xs [] h k = absurd (omega arith)
memcmp-lex zero (suc w) xs (y ∷ ys) h k =
    let e : min 0 (suc w) ≡ 0 = omega arith in rw e (ground arith)
memcmp-lex (suc v) w [] ys h k = absurd (omega arith)
memcmp-lex (suc v) zero (x ∷ xs) ys h k =
    let e : min (suc v) 0 ≡ 0 = omega arith in rw e (ground arith)
memcmp-lex (suc v) (suc w) (x ∷ xs) [] h k = absurd (omega arith)
memcmp-lex (suc v) (suc w) (x ∷ xs) (y ∷ ys) h k =
    let e : min (suc v) (suc w) ≡ suc (min v w) = omega arith in
    rw e (ground (arith, memcmp-lex v w xs ys, compare-suc v w))

common_lem : (v w : ℕ) → (if ltb v w then v else w) ≡ min v w
common_lem v w = ground arith

min_self : (v : ℕ) → min v v ≡ v
min_self v = omega arith

-- What `operator<` makes of the bytes in common, in terms of the contents.
abbrev pub below : Ordering → Bool
below Ordering.lt = true
below Ordering.eq = false
below Ordering.gt = false

module _ {n : ℕ} where
  steps :
      {a b : TBuffer n}
      → IsValid a
      → IsValid b
      → by_steps a.written b.written (memcmp (min a.written b.written) a.buf b.buf)
        ≡ lex (contents a) (contents b)
  steps {a} {b} v w = memcmp-lex a.written b.written a.buf b.buf (omega arith) (omega arith)

  -- `<` is dictionary order on the contents.
  pub lt-below-lex :
      {a b : TBuffer n} → IsValid a → IsValid b → lt a b ≡ below (lex (contents a) (contents b))
  unfolding lt
  lt-below-lex {a} {b} v w = rw (common_lem a.written b.written, lt) (ground (arith, steps v w))

  eq-true : {a b : TBuffer n} → IsValid a → IsValid b → eq a b ≡ true → contents a ≡ contents b
  unfolding eq
  eq-true {a} {b} v w h =
      lex-eq (contents a) (contents b) (ground (arith, steps v w, min_self a.written, h))

  true-eq : {a b : TBuffer n} → IsValid a → IsValid b → contents a ≡ contents b → eq a b ≡ true
  unfolding eq
  true-eq {a} {b} v w h = ground (
    arith,
    steps v w,
    min_self a.written,
    ap length h,
    length-contents v,
    length-contents w,
    lex_self (contents b),
  )

  -- `==` holds of two buffers exactly if they hold the same bytes, whatever lies beyond their
  -- extents.
  pub eq_iff :
      {a b : TBuffer n} → IsValid a → IsValid b → (eq a b ≡ true) ↔ (contents a ≡ contents b)
  eq_iff v w = (eq-true v w, true-eq v w)

  -- Of two valid buffers exactly one holds: the first is less, they are equal, the second is less.
  pub lt-eq_trichotomy :
      {a b : TBuffer n}
      → IsValid a
      → IsValid b
      → ((lt a b ≡ true) × (eq a b ≡ false) × (lt b a ≡ false))
        ⊎ ((lt a b ≡ false) × (eq a b ≡ true) × (lt b a ≡ false))
        ⊎ ((lt a b ≡ false) × (eq a b ≡ false) × (lt b a ≡ true))
  lt-eq_trichotomy {a} {b} v w = ground (
    arith,
    lt-below-lex v w,
    lt-below-lex w v,
    lex_flip (contents a) (contents b),
    lex_flip (contents b) (contents a),
    lex-lt (contents a) (contents b),
    lex_self (contents b),
    lex-eq (contents a) (contents b),
    lex-eq (contents b) (contents a),
    eq-true v w,
    true-eq v w,
  )

  -- `<` is transitive on valid buffers.
  pub lt_trans :
      {a b c : TBuffer n}
      → IsValid a
      → IsValid b
      → IsValid c
      → lt a b ≡ true
      → lt b c ≡ true
      → lt a c ≡ true
  lt_trans {a} {b} {c} va vb vc h k = ground (
    arith,
    lt-below-lex va vb,
    lt-below-lex vb vc,
    lt-below-lex va vc,
    lex_trans (contents a) (contents b) (contents c),
  )
