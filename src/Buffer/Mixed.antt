-- ===== src/Buffer/Mixed.antt =====
-- core/Buffer.h, sequences of numbers, Booleans and strings.
use mathlib.Core.List.{append_assoc, append-nil}
use etcs.Base.{
  ℕ, suc, ◌+◌, ◌^◌, ◌<◌, ◌≡◌, refl, sym, ap, ap₂, ◌∙◌, Bool, ◌&&◌, true, false, List, [], ◌∷◌, ◌++◌,
  none, some, ◌==◌, length, length-append, arith, drop, if◌then◌else◌, Bool-cases, inl, inr,
}
use etcs.Buffer.{TBuffer}
use etcs.Buffer.Bounds.{IsValid}
use etcs.Buffer.TokenBounds.{insert_string-IsValid}
use etcs.Buffer.Contents.{contents, length-contents, drop-append}
use etcs.Buffer.Tokens.{unread, insert_string, extract_string}
use etcs.Buffer.Numbers.{
  is_digit, ℤ, pos, negsuc, to_chars, to_chars_int, insert_uint, insert_int, insert_bool,
  insert_chars, scan_digits, extract_uint, extract_int, extract_bool, from_chars, from_chars_int,
  signed, behind_minus,
}
use etcs.Buffer.Decimal.{from_chars-to_chars}
use etcs.Buffer.Values.{insert_chars-Appends, insert_chars-IsValid}
use etcs.Buffer.RoundTrip.{Appends, encode, escape, in_array, insert_string-Appends}

pub data Value : Type 0 where
  uint : ℕ → Value
  int : ℤ → Value
  flag : Bool → Value
  text : List ℕ → Value

abbrev pub int_of : Bool → ℤ
int_of b = if b then pos 1 else pos 0

abbrev pub encode_value : Value → List ℕ
encode_value (uint v) = to_chars v ++ b' ' ∷ []
encode_value (int v) = to_chars_int v ++ b' ' ∷ []
encode_value (flag v) = to_chars_int (int_of v) ++ b' ' ∷ []
encode_value (text s) = encode s

abbrev pub encode_values : List Value → List ℕ
encode_values [] = []
encode_values (v ∷ vs) = encode_value v ++ encode_values vs

-- Numbers that their types can hold.
abbrev pub InRange : Value → Type 0
InRange (uint v) = v < 2 ^ 64
InRange (int (pos v)) = v < 2 ^ 31
InRange (int (negsuc v)) = v < 2 ^ 31
InRange (flag v) = Unit {0}
InRange (text s) = Unit {0}

abbrev pub AllInRange : List Value → Type 0
AllInRange [] = Unit {0}
AllInRange (v ∷ vs) = InRange v × AllInRange vs

-- Whether the variables that are read into have the types of what was written.
abbrev pub same_kind : Value → Value → Bool
same_kind (uint a) (uint b) = true
same_kind (int a) (int b) = true
same_kind (flag a) (flag b) = true
same_kind (text a) (text b) = true
same_kind old v = false

abbrev pub same_kinds : List Value → List Value → Bool
same_kinds [] [] = true
same_kinds (old ∷ olds) (v ∷ vs) = same_kind old v && same_kinds olds vs
same_kinds olds vs = false

module _ {n : ℕ} where
  -- `left` is what a `to_chars` leaves that fails.
  abbrev pub insert_value : List ℕ → TBuffer n → Value → TBuffer n
  insert_value left b (uint v) = insert_uint left b v
  insert_value left b (int v) = insert_int left b v
  insert_value left b (flag v) = insert_bool left b v
  insert_value left b (text s) = insert_string b s

  abbrev pub insert_values : List ℕ → TBuffer n → List Value → TBuffer n
  insert_values left b [] = b
  insert_values left b (v ∷ vs) = insert_values left (insert_value left b v) vs

  -- The first argument is the variable's value before.
  abbrev pub extract_value : Value → TBuffer n → Value × TBuffer n
  extract_value (uint old) b = let (v, b') = extract_uint b old in (uint v, b')
  extract_value (int old) b = let (v, b') = extract_int b old in (int v, b')
  extract_value (flag old) b = let (v, b') = extract_bool b in (flag v, b')
  extract_value (text old) b = let (s, b') = extract_string b in (text s, b')

  abbrev pub extract_values : List Value → TBuffer n → List Value × TBuffer n
  extract_values [] b = ([], b)
  extract_values (old ∷ olds) b =
      let (v, b') = extract_value old b in let (vs, b'') = extract_values olds b' in (v ∷ vs, b'')

pub no_digits : (limit c : ℕ) (cs : List ℕ) → is_digit c ≡ false → from_chars limit (c ∷ cs) ≡ none
unfolding from_chars scan_digits
no_digits limit c cs h = rw h refl

not_minus :
    (limit : ℕ) (xs : List ℕ) (v k : ℕ)
    → from_chars limit xs ≡ some (v, k)
    → limit ≡ 2147483647
    → from_chars_int xs ≡ some (pos v, k)
unfolding from_chars_int from_chars scan_digits
not_minus limit [] v k e same = let bad : from_chars limit [] ≡ none = refl in absurd (cc)
not_minus limit (c ∷ cs) v k e same = elim (Bool-cases (c == b'-')) [
  | inl minus ↦ let bad = no_digits limit c cs (ground (arith, minus)) in absurd (cc)
  | inr plus ↦ rw plus (ap signed (ap (λ l. from_chars l (c ∷ cs)) (sym same) ∙ e))
]

-- A token and a blank in front of what does not begin with a delimiter.
pub from_chars_int-to_chars_int :
    (v : ℤ) (rest : List ℕ)
    → InRange (int v)
    → from_chars_int (to_chars_int v ++ b' ' ∷ rest) ≡ some (v, length (to_chars_int v))
unfolding from_chars_int
from_chars_int-to_chars_int (pos v) rest h =
    not_minus 2147483647 (to_chars v ++ b' ' ∷ rest) v (length (to_chars v))
      (from_chars-to_chars 2147483647 v (b' ' ∷ rest) (omega arith) (omega arith) refl) refl
from_chars_int-to_chars_int (negsuc v) rest h =
    ap behind_minus
      (from_chars-to_chars 2147483648 (suc v) (b' ' ∷ rest) (omega arith) (omega arith) refl)

encode_value-size : (v : Value) → 0 < length (encode_value v)
encode_value-size (uint v) = omega (arith, length-append (to_chars v) (b' ' ∷ []))
encode_value-size (int v) = omega (arith, length-append (to_chars_int v) (b' ' ∷ []))
encode_value-size (flag v) = omega (arith, length-append (to_chars_int (int_of v)) (b' ' ∷ []))
encode_value-size (text s) = omega arith

module _ {n : ℕ} where
  -- A value that fits goes in as one token, and the buffer stays valid.
  record Inserted (b : TBuffer n) (xs : List ℕ) (r : TBuffer n) : Type 0 where
    appends : Appends b xs r
    valid : IsValid r

  chars_lem :
      (left : List ℕ) {b : TBuffer n} (cs : List ℕ)
      → b.written + length (cs ++ b' ' ∷ []) + 2 < n
      → IsValid b
      → Inserted b (cs ++ b' ' ∷ []) (insert_chars left b cs)
  chars_lem left {b} cs h v =
      let size = length-append cs (b' ' ∷ []) in
      record {
        appends = insert_chars-Appends left cs (omega arith) (in_array v);
        valid = insert_chars-IsValid left cs (omega arith) (in_array v);
      }

  insert_value_lem :
      (left : List ℕ) {b : TBuffer n} (v : Value)
      → b.written + length (encode_value v) + 2 < n
      → IsValid b
      → Inserted b (encode_value v) (insert_value left b v)
  insert_value_lem left (uint x) h v = chars_lem left (to_chars x) h v
  insert_value_lem left (int x) h v = chars_lem left (to_chars_int x) h v
  insert_value_lem left (flag x) h v = chars_lem left (to_chars_int (int_of x)) h v
  insert_value_lem left {b} (text s) h v =
      let size = length-append (escape s) (b'"' ∷ b' ' ∷ []) in
      record {
        appends = insert_string-Appends {b = b} s (omega arith) (omega arith) (in_array v);
        valid = insert_string-IsValid s (omega arith) v;
      }

  unread-Inserted :
      {b r : TBuffer n} (xs : List ℕ) → IsValid b → Inserted b xs r → unread r ≡ unread b ++ xs
  unread-Inserted {b} {r} xs v i =
      ap₂ drop i.appends.offset i.appends.bytes
      ∙ drop-append b.read_offset (contents b) xs (omega (arith, length-contents v, v.offset))

  pub insert_values_lem :
      (left : List ℕ) (vs : List Value) (b : TBuffer n)
      → IsValid b
      → b.written + length (encode_values vs) + 2 < n
      → IsValid (insert_values left b vs)
        × (unread (insert_values left b vs) ≡ unread b ++ encode_values vs)
        × ((insert_values left b vs).written ≡ b.written + length (encode_values vs))
  insert_values_lem left [] b v h = (v, sym (append-nil (unread b)), omega arith)
  insert_values_lem left (x ∷ vs) b v h =
      let size = length-append (encode_value x) (encode_values vs) in
      let one = insert_value_lem left {b = b} x (omega arith) v in
      let rest =
        insert_values_lem left vs (insert_value left b x) one.valid
          (omega (arith, one.appends.count)) in
      (
        rest.0,
        rest.1
            ∙ ap (λ t. t ++ encode_values vs) (unread-Inserted (encode_value x) v one)
            ∙ append_assoc (unread b) (encode_value x) (encode_values vs),
        omega (arith, rest.2, one.appends.count),
      )
