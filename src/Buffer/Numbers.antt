-- ===== src/Buffer/Numbers.antt =====
-- core/Buffer.h, `operator<<` and `operator>>` on numbers and Booleans: decimal text with a blank
-- behind it. `to_chars` and `from_chars` are the standard library's for base ten.
use etcs.Base.{
  ℕ, zero, suc, ◌+◌, ◌-◌, ◌*◌, ◌/◌, ◌%◌, Bool, true, not, ◌&&◌, List, [], ◌∷◌, ◌++◌, Option, none,
  some, ltb, leb, ◌==◌, if◌then◌else◌, length, take,
}
use etcs.Base.Memory.{add_size, sub_size, memcpy}
use etcs.Buffer.{TBuffer}
use etcs.Buffer.Tokens.{end_token, unread, token_length, skip_delimiters}

-- An `int`.
pub data ℤ : Type 0 where
  pos : ℕ → ℤ
  negsuc : ℕ → ℤ

-- The decimal digits, in at most as many places as the first argument says.
unfoldable pub digits : ℕ → ℕ → List ℕ
digits zero v = []
digits (suc places) v =
    let front = digits places (v / 10) in
    (if v / 10 == 0 then [] else front) ++ (b'0' + v % 10) ∷ []

-- Twenty digits are enough for 64 bits.
abbrev pub to_chars : ℕ → List ℕ
to_chars v = digits 20 v

abbrev pub to_chars_int : ℤ → List ℕ
to_chars_int (pos v) = to_chars v
to_chars_int (negsuc v) = b'-' ∷ to_chars (suc v)

abbrev pub is_digit : ℕ → Bool
is_digit c = leb b'0' c && leb c b'9'

-- The value of the digits at the front behind those already read, and how many there are.
unfoldable pub scan_digits : List ℕ → ℕ → ℕ → ℕ × ℕ
scan_digits [] v count = (v, count)
scan_digits (c ∷ cs) v count =
    let rest = scan_digits cs (v * 10 + (c - b'0')) (suc count) in
    if is_digit c then rest else (v, count)

-- The value and the length of the text of a number of at most `limit`; no digits or a larger value
-- are errors.
unfoldable pub from_chars : ℕ → List ℕ → Option (ℕ × ℕ)
unfolding scan_digits
from_chars limit cs =
    let (v, count) = scan_digits cs 0 0 in
    if count == 0 then none else if ltb limit v then none else some (v, count)

abbrev pub opposite : ℕ → ℤ
opposite zero = pos zero
opposite (suc v) = negsuc v

abbrev pub signed : Option (ℕ × ℕ) → Option (ℤ × ℕ)
signed none = none
signed (some (v, count)) = some (pos v, count)

abbrev pub behind_minus : Option (ℕ × ℕ) → Option (ℤ × ℕ)
behind_minus none = none
behind_minus (some (v, count)) = some (opposite v, suc count)

unfoldable pub from_chars_int : List ℕ → Option (ℤ × ℕ)
unfolding from_chars
from_chars_int [] = none
from_chars_int (c ∷ cs) =
    if c == b'-'
    then behind_minus (from_chars 2147483648 cs)
    else signed (from_chars 2147483647 (c ∷ cs))

abbrev pub is_nonzero : ℤ → Bool
is_nonzero (pos v) = not (v == 0)
is_nonzero (negsuc v) = true

module _ {n : ℕ} where
  -- `operator<<` with the text that `to_chars` gives. Where there is no room for it nothing is counted
  -- as written; `left` is what the failed `to_chars` leaves in its range, as much of it as fits.
  unfoldable pub insert_chars : List ℕ → TBuffer n → List ℕ → TBuffer n
  unfolding end_token
  insert_chars left b text =
      let room = sub_size (sub_size n 1) b.written in
      if leb (sub_size n 1) b.written
      then b
      else if ltb room (length text)
      then record b { buf = memcpy b.buf b.written (take room left) }
      else end_token (record b {
        buf = memcpy b.buf b.written text;
        written = add_size b.written (length text);
      })

  abbrev pub insert_uint : List ℕ → TBuffer n → ℕ → TBuffer n
  insert_uint left b v = insert_chars left b (to_chars v)

  abbrev pub insert_int : List ℕ → TBuffer n → ℤ → TBuffer n
  insert_int left b v = insert_chars left b (to_chars_int v)

  abbrev pub insert_bool : List ℕ → TBuffer n → Bool → TBuffer n
  insert_bool left b v = insert_int left b (if v then pos 1 else pos 0)

  -- The read offset behind the text of a number, or behind what could not be read.
  unfoldable pub behind_chars {ℓ} : {A : Type ℓ} → TBuffer n → A → Option (A × ℕ) → A × TBuffer n
  unfolding token_length
  behind_chars b val none =
      (val, record b { read_offset = b.read_offset + token_length (unread b) })
  behind_chars b val (some (v, count)) = (v, record b { read_offset = b.read_offset + count })

  unfoldable pub skip_behind {ℓ} : {A : Type ℓ} → A × TBuffer n → A × TBuffer n
  unfolding skip_delimiters
  skip_behind (v, b) = (v, skip_delimiters b)

  -- `operator>>` with what `from_chars` makes of the unread text; `val` is kept on an error.
  unfoldable pub extract_chars {ℓ} :
      {A : Type ℓ} → (List ℕ → Option (A × ℕ)) → TBuffer n → A → A × TBuffer n
  unfolding skip_behind behind_chars
  extract_chars parse b val =
      if leb b.written b.read_offset
      then (val, b)
      else skip_behind (behind_chars b val (parse (unread b)))

  -- Into a `uint64_t`
  abbrev pub extract_uint : TBuffer n → ℕ → ℕ × TBuffer n
  extract_uint b val = extract_chars (from_chars 18446744073709551615) b val

  -- Into an `int`
  abbrev pub extract_int : TBuffer n → ℤ → ℤ × TBuffer n
  extract_int b val = extract_chars from_chars_int b val

  abbrev pub extract_bool : TBuffer n → Bool × TBuffer n
  extract_bool b = let (temp, b') = extract_int b (pos 0) in (is_nonzero temp, b')
