-- ===== src/Buffer/Decimal.antt =====
-- The decimal text that core/Buffer.h writes for a number is read back as that number.
use mathlib.Core.List.{append_assoc}
use etcs.Base.{
  ℕ, zero, suc, ◌+◌, ◌-◌, ◌*◌, ◌/◌, ◌%◌, ◌^◌, ◌<◌, ◌≤◌, ◌≡◌, refl, ap, ap₂, ◌∙◌, true, false, List,
  [], ◌∷◌, ◌++◌, Option, none, some, ltb, ◌==◌, if◌then◌else◌, length, length-append, arith,
  Bool-cases, inl, inr,
}
use etcs.Buffer.Numbers.{digits, to_chars, is_digit, scan_digits, from_chars}

-- The numbers of at most so many decimal places.
abbrev tens : ℕ → ℕ
tens zero = 1
tens (suc places) = 10 * tens places

-- Behind the text there is no further digit.
abbrev pub Ends : List ℕ → Type 0
Ends [] = Unit {0}
Ends (c ∷ cs) = is_digit c ≡ false

scan_digits-Ends : (rest : List ℕ) (v count : ℕ) → Ends rest → scan_digits rest v count ≡ (v, count)
unfolding scan_digits
scan_digits-Ends [] v count h = refl
scan_digits-Ends (c ∷ cs) v count h = rw h refl

scan_digits-digit :
    (d : ℕ) (rest : List ℕ) (v count : ℕ)
    → d < 10
    → scan_digits ((b'0' + d) ∷ rest) v count ≡ scan_digits rest (v * 10 + d) (suc count)
unfolding scan_digits
scan_digits-digit d rest v count h =
    let e : is_digit (b'0' + d) ≡ true = ground arith in
    let back : b'0' + d - b'0' ≡ d = omega arith in
    rw e (ap (λ x. scan_digits rest (v * 10 + x) (suc count)) back)

digits-one : (places v : ℕ) → (v / 10 == 0) ≡ true → digits (suc places) v ≡ (b'0' + v % 10) ∷ []
unfolding digits
digits-one places v e = rw e refl

digits-more :
    (places v : ℕ)
    → (v / 10 == 0) ≡ false
    → digits (suc places) v ≡ digits places (v / 10) ++ (b'0' + v % 10) ∷ []
unfolding digits
digits-more places v e = rw e refl

below : (t v : ℕ) → v < 10 * t → v / 10 < t
below t v h = omega arith

scan_digits-one :
    (places v : ℕ) (rest : List ℕ) (count : ℕ)
    → (v / 10 == 0) ≡ true
    → scan_digits (digits (suc places) v ++ rest) 0 count
      ≡ scan_digits rest v (count + length (digits (suc places) v))
scan_digits-one places v rest count e =
    let small : v / 10 ≡ 0 = ground (arith, e) in
    let value : 0 * 10 + v % 10 ≡ v = omega (arith, small) in
    let size : suc count ≡ count + length (digits (suc places) v) =
      omega (arith, ap length (digits-one places v e)) in
    ap (λ t. scan_digits (t ++ rest) 0 count) (digits-one places v e)
    ∙ scan_digits-digit (v % 10) rest 0 count (omega arith)
    ∙ ap₂ (scan_digits rest) value size

-- Reading the digits of a number leaves its value.
scan_digits-digits :
    (places v : ℕ) (rest : List ℕ) (count : ℕ)
    → v < tens (suc places)
    → scan_digits (digits (suc places) v ++ rest) 0 count
      ≡ scan_digits rest v (count + length (digits (suc places) v))
scan_digits-digits zero v rest count h = scan_digits-one zero v rest count (ground (arith, h))
scan_digits-digits (suc places) v rest count h = elim (Bool-cases (v / 10 == 0)) [
  | inl e ↦ scan_digits-one (suc places) v rest count e
  | inr e ↦
      let front = digits (suc places) (v / 10) in
      let last = b'0' + v % 10 in
      let more = digits-more (suc places) v e in
      let value : v / 10 * 10 + v % 10 ≡ v = omega arith in
      let size : suc (count + length front) ≡ count + length (digits (suc (suc places)) v) =
        omega (arith, ap length more, length-append front (last ∷ [])) in
      ap (λ t. scan_digits (t ++ rest) 0 count) more
      ∙ ap (λ t. scan_digits t 0 count) (append_assoc front (last ∷ []) rest)
      ∙ scan_digits-digits places (v / 10) (last ∷ rest) count (below (tens (suc places)) v h)
      ∙ scan_digits-digit (v % 10) rest (v / 10) (count + length front) (omega arith)
      ∙ ap₂ (scan_digits rest) value size
]

digits-nonempty : (places v : ℕ) → 0 < length (digits (suc places) v)
unfolding digits
digits-nonempty places v =
    let front = if v / 10 == 0 then [] else digits places (v / 10) in
    omega (arith, length-append front ((b'0' + v % 10) ∷ []))

-- A number of 64 bits, with no digit behind its text, is read back with all of its text.
pub from_chars-to_chars :
    (limit v : ℕ) (rest : List ℕ)
    → v ≤ limit
    → v < 2 ^ 64
    → Ends rest
    → from_chars limit (to_chars v ++ rest) ≡ some (v, length (to_chars v))
unfolding from_chars
from_chars-to_chars limit v rest h small e =
    let s =
      scan_digits-digits 19 v rest 0 (omega arith)
      ∙ scan_digits-Ends rest v (0 + length (to_chars v)) e in
    let size : 0 + length (to_chars v) ≡ length (to_chars v) = omega arith in
    ap decide (s ∙ ap (λ c. (v, c)) size) ∙ found (length (to_chars v)) (digits-nonempty 19 v)
  where
    decide : ℕ × ℕ → Option (ℕ × ℕ)
    decide (w, count) = if count == 0 then none else if ltb limit w then none else some (w, count)

    found : (count : ℕ) → 0 < count → decide (v, count) ≡ some (v, count)
    found count k = ground (arith, h, k)
