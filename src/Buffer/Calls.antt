-- ===== src/Buffer/Calls.antt =====
-- core/Buffer.h, a call on a buffer, with what it gives, and any calls in any order.
use etcs.Base.{◌≡◌, ℕ, ◌^◌, ◌<◌, Bool, List, [], ◌∷◌, Option, length}
use etcs.Buffer.{
  TBuffer, new, reset, clear, write_raw, read_raw, write_string, write_string_len, write,
  write_string_sanitized, to_string, rest_as_string,
}
use etcs.Buffer.Tokens.{insert_string, insert_buffer, extract_string, extract_buffer}
use etcs.Buffer.Numbers.{
  ℤ, insert_uint, insert_int, insert_bool, extract_uint, extract_int, extract_bool,
}

pub data Call : Type 0 where
  resets clears extracts extracts_bool asks_string asks_rest : Call
  writes_raw writes_string writes_string_len writes sanitizes inserts : List ℕ → Call
  reads_raw extracts_uint : ℕ → Call
  inserts_uint : List ℕ → ℕ → Call
  inserts_int : List ℕ → ℤ → Call
  inserts_bool : List ℕ → Bool → Call
  extracts_int : ℤ → Call
  inserts_new_buffer moves_to_new moves_from_new : (m : ℕ) → List ℕ → Call

-- What a call returns or puts into its variable.
pub data Output : Type 0 where
  nothing : Output
  done : Bool → Output
  read : Option (List ℕ) → Output
  text : List ℕ → Output
  number : ℕ → Output
  integer : ℤ → Output
  flag : Bool → Output
  moved : List ℕ → Output

module _ {n : ℕ} where
  unfoldable pub apply : TBuffer n → Call → Output × TBuffer n
  apply b resets = (nothing, reset b)
  apply b clears = (nothing, clear b)
  apply b (writes_raw bytes) = let (ok, b') = write_raw b bytes in (done ok, b')
  apply b (writes_string str) = let (ok, b') = write_string b str in (done ok, b')
  apply b (writes_string_len str) = let (ok, b') = write_string_len b str in (done ok, b')
  apply b (writes str) = let (ok, b') = write b str in (done ok, b')
  apply b (sanitizes str) = let (ok, b') = write_string_sanitized b str in (done ok, b')
  apply b (reads_raw len) = let (out, b') = read_raw b len in (read out, b')
  apply b (inserts val) = (nothing, insert_string b val)
  apply b (inserts_uint left val) = (nothing, insert_uint left b val)
  apply b (inserts_int left val) = (nothing, insert_int left b val)
  apply b (inserts_bool left val) = (nothing, insert_bool left b val)
  apply b extracts = let (val, b') = extract_string b in (text val, b')
  apply b (extracts_uint old) = let (val, b') = extract_uint b old in (number val, b')
  apply b (extracts_int old) = let (val, b') = extract_int b old in (integer val, b')
  apply b extracts_bool = let (val, b') = extract_bool b in (flag val, b')
  apply b asks_string = (text (to_string b), b)
  apply b asks_rest = (text (rest_as_string b), b)
  apply b (inserts_new_buffer m bytes) = (nothing, insert_buffer b (write_raw (new m) bytes).1)
  apply b (moves_to_new m bytes) =
      let (b', other) = extract_buffer b (write_raw (new m) bytes).1 in (moved other.buf, b')
  apply b (moves_from_new m bytes) = (nothing, (extract_buffer (write_raw (new m) bytes).1 b).1)

  unfoldable pub run : TBuffer n → List Call → List Output × TBuffer n
  run b [] = ([], b)
  run b (c ∷ cs) = let (out, b') = apply b c in let (outs, b'') = run b' cs in (out ∷ outs, b'')

abbrev pub IsOther : ℕ → List ℕ → Type 0
IsOther m bytes = (0 < m) × (m < 2 ^ 63) × (length bytes < 2 ^ 63)

-- The arguments are objects in memory, and none is of half the address space; a `to_chars` that fails
-- leaves its range as it was.
abbrev pub Fits : Call → Type 0
Fits (writes_raw bytes) = length bytes < 2 ^ 63
Fits (writes_string str) = length str < 2 ^ 63
Fits (writes_string_len str) = length str < 2 ^ 63
Fits (writes str) = length str < 2 ^ 63
Fits (reads_raw len) = len < 2 ^ 63
Fits (inserts_new_buffer m bytes) = IsOther m bytes
Fits (moves_to_new m bytes) = IsOther m bytes
Fits (moves_from_new m bytes) = IsOther m bytes
Fits (inserts_uint left val) = left ≡ []
Fits (inserts_int left val) = left ≡ []
Fits (inserts_bool left val) = left ≡ []
Fits c = Unit {0}

abbrev pub AllFit : List Call → Type 0
AllFit [] = Unit {0}
AllFit (c ∷ cs) = Fits c × AllFit cs
