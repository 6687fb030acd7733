-- ===== src/Buffer/Reading.antt =====
-- core/Buffer.h, sequences of values come back from `operator>>` as `operator<<` wrote them.
use mathlib.Core.List.{append_assoc, append-nil}
use etcs.Base.{
  ℕ, ◌+◌, ◌^◌, ◌<◌, ◌≡◌, refl, sym, ap, ap₂, subst, ◌∙◌, Bool, ◌&&◌, true, false, List, [], ◌∷◌,
  ◌++◌, some, length, arith, Bool-cases, inl, inr,
}
use etcs.Buffer.{TBuffer}
use etcs.Buffer.Bounds.{IsValid}
use etcs.Buffer.TokenBounds.{extract_string-IsValid}
use etcs.Buffer.Tokens.{unread}
use etcs.Buffer.Numbers.{
  ℤ, pos, negsuc, is_digit, to_chars, to_chars_int, extract_chars, from_chars, from_chars_int,
  is_nonzero,
}
use etcs.Buffer.Decimal.{from_chars-to_chars}
use etcs.Buffer.Values.{extract_chars_lem}
use etcs.Buffer.RoundTrip.{Starts, extract_string-encode}
use etcs.Buffer.Mixed.{
  Value, uint, int, flag, text, int_of, encode_value, encode_values, InRange, AllInRange, same_kind,
  same_kinds, insert_values, extract_value, extract_values, no_digits, from_chars_int-to_chars_int,
  insert_values_lem,
}

-- What begins with the text of a number does not begin with a delimiter.
number-Starts : (limit : ℕ) (xs : List ℕ) (v k : ℕ) → from_chars limit xs ≡ some (v, k) → Starts xs
number-Starts limit [] v k e = tt
number-Starts limit (c ∷ cs) v k e = elim (Bool-cases (is_digit c)) [
  | inl h ↦ ground (arith, h)
  | inr h ↦ let bad = no_digits limit c cs h in absurd (cc)
]

uint-Starts : (v : ℕ) (rest : List ℕ) → v < 2 ^ 64 → Starts (to_chars v ++ b' ' ∷ rest)
uint-Starts v rest h =
    number-Starts 18446744073709551615 (to_chars v ++ b' ' ∷ rest) v (length (to_chars v))
      (from_chars-to_chars 18446744073709551615 v (b' ' ∷ rest) (omega arith) h refl)

int-Starts : (v : ℤ) (rest : List ℕ) → InRange (int v) → Starts (to_chars_int v ++ b' ' ∷ rest)
int-Starts (pos v) rest h = uint-Starts v rest (omega arith)
int-Starts (negsuc v) rest h = refl

spaced : (cs rest : List ℕ) → (cs ++ b' ' ∷ []) ++ rest ≡ cs ++ b' ' ∷ rest
spaced cs rest = append_assoc cs (b' ' ∷ []) rest

pub flag-InRange : (b : Bool) → InRange (int (int_of b))
flag-InRange true = omega arith
flag-InRange false = omega arith

encode_value-Starts : (v : Value) (rest : List ℕ) → InRange v → Starts (encode_value v ++ rest)
encode_value-Starts (uint v) rest h =
    subst Starts (sym (spaced (to_chars v) rest)) (uint-Starts v rest h)
encode_value-Starts (int v) rest h =
    subst Starts (sym (spaced (to_chars_int v) rest)) (int-Starts v rest h)
encode_value-Starts (flag v) rest h =
    subst Starts (sym (spaced (to_chars_int (int_of v)) rest))
      (int-Starts (int_of v) rest (flag-InRange v))
encode_value-Starts (text s) rest h = refl

is_nonzero-int_of : (b : Bool) → is_nonzero (int_of b) ≡ b
is_nonzero-int_of true = refl
is_nonzero-int_of false = refl

pub encode_values-Starts :
    (vs : List Value) (rest : List ℕ)
    → AllInRange vs
    → Starts rest
    → Starts (encode_values vs ++ rest)
encode_values-Starts [] rest a st = st
encode_values-Starts (v ∷ vs) rest a st =
    subst Starts (sym (append_assoc (encode_value v) (encode_values vs) rest))
      (encode_value-Starts v (encode_values vs ++ rest) a.0)

both : (a b : Bool) → (a && b) ≡ true → (a ≡ true) × (b ≡ true)
both true true e = (refl, refl)
both true false e = absurd (cc)
both false b e = absurd (cc)

module _ {n : ℕ} where
  -- What taking a value off the front comes to.
  abbrev pub Taken {ℓ} : {A : Type ℓ} → A → List ℕ → A × TBuffer n → Type ℓ
  Taken v rest r = (r.0 ≡ v) × (unread r.1 ≡ rest) × IsValid r.1

  pub int_lem :
      {b : TBuffer n} (old v : ℤ) (rest : List ℕ)
      → InRange (int v)
      → IsValid b
      → unread b ≡ (to_chars_int v ++ b' ' ∷ []) ++ rest
      → Starts rest
      → Taken v rest (extract_chars from_chars_int b old)
  int_lem old v rest h valid e st =
      extract_chars_lem from_chars_int (to_chars_int v) rest old v valid
        (e ∙ spaced (to_chars_int v) rest) st (from_chars_int-to_chars_int v rest h)

  pub extract_value_lem :
      {b : TBuffer n} (old v : Value) (rest : List ℕ)
      → same_kind old v ≡ true
      → InRange v
      → IsValid b
      → unread b ≡ encode_value v ++ rest
      → Starts rest
      → Taken v rest (extract_value old b)
  extract_value_lem (uint old) (uint v) rest k h valid e st =
      let t =
        extract_chars_lem (from_chars 18446744073709551615) (to_chars v) rest old v valid
          (e ∙ spaced (to_chars v) rest) st
          (from_chars-to_chars 18446744073709551615 v (b' ' ∷ rest) (omega arith) h refl) in
      (ap uint t.0, t.1, t.2)
  extract_value_lem (int old) (int v) rest k h valid e st =
      let t = int_lem old v rest h valid e st in (ap int t.0, t.1, t.2)
  extract_value_lem (flag old) (flag v) rest k h valid e st =
      let t = int_lem (pos 0) (int_of v) rest (flag-InRange v) valid e st in
      (ap (λ i. flag (is_nonzero i)) t.0 ∙ ap flag (is_nonzero-int_of v), t.1, t.2)
  extract_value_lem (text old) (text s) rest k h valid e st =
      let t = extract_string-encode s rest valid e st in
      (ap text t.0, t.1, extract_string-IsValid valid)
  extract_value_lem (uint old) (int v) rest k h valid e st = absurd (cc)
  extract_value_lem (uint old) (flag v) rest k h valid e st = absurd (cc)
  extract_value_lem (uint old) (text v) rest k h valid e st = absurd (cc)
  extract_value_lem (int old) (uint v) rest k h valid e st = absurd (cc)
  extract_value_lem (int old) (flag v) rest k h valid e st = absurd (cc)
  extract_value_lem (int old) (text v) rest k h valid e st = absurd (cc)
  extract_value_lem (flag old) (uint v) rest k h valid e st = absurd (cc)
  extract_value_lem (flag old) (int v) rest k h valid e st = absurd (cc)
  extract_value_lem (flag old) (text v) rest k h valid e st = absurd (cc)
  extract_value_lem (text old) (uint v) rest k h valid e st = absurd (cc)
  extract_value_lem (text old) (int v) rest k h valid e st = absurd (cc)
  extract_value_lem (text old) (flag v) rest k h valid e st = absurd (cc)

  -- Values that stand at the front of what is unread are taken one by one into variables of their
  -- types, and the bytes behind them are left.
  pub extract_values_lem :
      (olds vs : List Value) (b : TBuffer n) (rest : List ℕ)
      → same_kinds olds vs ≡ true
      → AllInRange vs
      → IsValid b
      → unread b ≡ encode_values vs ++ rest
      → Starts rest
      → Taken vs rest (extract_values olds b)
  extract_values_lem [] [] b rest k a valid e st = (refl, e, valid)
  extract_values_lem [] (v ∷ vs) b rest k a valid e st = absurd (cc)
  extract_values_lem (old ∷ olds) [] b rest k a valid e st = absurd (cc)
  extract_values_lem (old ∷ olds) (v ∷ vs) b rest k a valid e st =
      let kinds = both (same_kind old v) (same_kinds olds vs) k in
      let one =
        extract_value_lem old v (encode_values vs ++ rest) kinds.0 a.0 valid
          (e ∙ append_assoc (encode_value v) (encode_values vs) rest)
          (encode_values-Starts vs rest a.1 st) in
      let more =
        extract_values_lem olds vs (extract_value old b).1 rest kinds.1 a.1 one.2 one.1 st in
      (ap₂ ◌∷◌ one.0 more.0, more.1, more.2)

  -- Numbers that their types can hold, Booleans and strings of any bytes, written one after another
  -- into a buffer with nothing unread and with room for their texts, come back in order and
  -- unchanged into variables of the same types, and then nothing is left unread.
  pub extract_values-insert_values :
      (left : List ℕ) {b : TBuffer n} (olds vs : List Value)
      → same_kinds olds vs ≡ true
      → AllInRange vs
      → IsValid b
      → unread b ≡ []
      → b.written + length (encode_values vs) + 2 < n
      → ((extract_values olds (insert_values left b vs)).0 ≡ vs)
        × (unread (extract_values olds (insert_values left b vs)).1 ≡ [])
  extract_values-insert_values left {b} olds vs k a v e h =
      let w = insert_values_lem left vs b v h in
      let t =
        extract_values_lem olds vs (insert_values left b vs) [] k a w.0
          (w.1 ∙ ap (λ u. u ++ encode_values vs) e ∙ sym (append-nil (encode_values vs))) tt in
      (t.0, t.1)
