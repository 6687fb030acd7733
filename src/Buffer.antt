-- ===== src/Buffer.antt =====
-- core/Buffer.h, `TBuffer<N>`: a fixed array of bytes with a write extent and a read offset.
-- The operators that form and take tokens are in Tokens; the other children prove.
pub mod Tokens
pub mod Bounds
pub mod TokenBounds
pub mod Contents
pub mod RoundTrip
pub mod Numbers
pub mod Decimal
pub mod Values
pub mod Mixed
pub mod Reading
pub mod Order
pub mod Calls
pub mod History
pub mod Behind
pub mod BehindTokens
mod Tests
mod MixedTests
use Prim.Native.Nat.{Ordering}
use etcs.Base.{
  ℕ, zero, suc, ◌+◌, ◌-◌, ◌<◌, ◌≤◌, ◌≡◌, Bool, true, false, not, ◌&&◌, ◌||◌, Option, none, some,
  List, [], ◌∷◌, ltb, leb, ◌==◌, if◌then◌else◌, length, take, drop, set, replicate,
}
use etcs.Base.Memory.{add_size, sub_size, strlen, c_str, memcmp, memcpy}

pub record TBuffer (n : ℕ) : Type 0 where
  pub buf : List ℕ
  pub written : ℕ
  pub read_offset : ℕ

-- The loop of `writeStringSanitized`: up to the terminator or to `room` bytes.
unfoldable pub sanitize : ℕ → List ℕ → List ℕ
sanitize room [] = []
sanitize zero (c ∷ cs) = []
sanitize (suc room) (c ∷ cs) =
    if c == 0 then [] else (if c == b',' then b' ' else c) ∷ sanitize room cs

module _ (n : ℕ) where
  unfoldable pub new : TBuffer n
  new = record { buf = replicate n 0; written = 0; read_offset = 0 }

module _ {n : ℕ} where
  unfoldable pub reset : TBuffer n → TBuffer n
  reset b = record b {
    buf = if ltb 0 n then set b.buf 0 0 else b.buf;
    written = 0;
    read_offset = 0;
  }

  unfoldable pub clear : TBuffer n → TBuffer n
  clear b = record b { buf = memcpy b.buf 0 (replicate n 0); written = 0; read_offset = 0 }

  unfoldable pub to_string : TBuffer n → List ℕ
  to_string b = if b.written == 0 then [] else take b.written b.buf

  unfoldable pub rest_as_string : TBuffer n → List ℕ
  rest_as_string b =
      if b.written == 0
      then []
      else take (sub_size b.written b.read_offset) (drop b.read_offset b.buf)

  -- `operator<`
  unfoldable pub lt : TBuffer n → TBuffer n → Bool
  lt a b =
      let common = if ltb a.written b.written then a.written else b.written in
      elim (memcmp common a.buf b.buf) [
        | Ordering.lt ↦ true
        | Ordering.eq ↦ ltb a.written b.written
        | Ordering.gt ↦ false
      ]

  -- `operator==`
  unfoldable pub eq : TBuffer n → TBuffer n → Bool
  eq a b =
      a.written == b.written
      && (a.written == 0 || elim (memcmp a.written a.buf b.buf) [ Ordering.eq ↦ true | _ ↦ false ])

  -- `buf[written] = '\0'` where there is room for it
  unfoldable pub terminate : TBuffer n → TBuffer n
  terminate b = if ltb b.written n then record b { buf = set b.buf b.written 0 } else b

  unfoldable pub write_raw : TBuffer n → List ℕ → Bool × TBuffer n
  unfolding terminate
  write_raw b bytes = if ltb n (add_size b.written (length bytes)) then (false, b) else (
    true,
    terminate (record b {
      buf = memcpy b.buf b.written bytes;
      written = add_size b.written (length bytes);
    }),
  )

  -- The option is what `data` receives.
  unfoldable pub read_raw : TBuffer n → ℕ → Option (List ℕ) × TBuffer n
  read_raw b len = if ltb b.written (add_size b.read_offset len) then (none, b) else (
    some (take len (drop b.read_offset b.buf)),
    record b { read_offset = add_size b.read_offset len },
  )

  -- `writeString(str)`: what was there is dropped first, also where the string does not fit.
  unfoldable pub write_string : TBuffer n → List ℕ → Bool × TBuffer n
  unfolding reset
  write_string b str =
      let r = reset b in
      if ltb n (add_size (strlen str) 1) then (false, r) else (
        true,
        record r { buf = set (memcpy r.buf 0 (c_str str)) (strlen str) 0; written = strlen str },
      )

  -- `writeString(str, len)`, with the `len` bytes from `str` on
  unfoldable pub write_string_len : TBuffer n → List ℕ → Bool × TBuffer n
  write_string_len b str =
      if ltb n (add_size (add_size b.written (length str)) 1) then (false, b) else (
        true,
        record b {
          buf = set (memcpy b.buf b.written str) (add_size b.written (length str)) 0;
          written = add_size b.written (length str);
        },
      )

  unfoldable pub write : TBuffer n → List ℕ → Bool × TBuffer n
  unfolding write_string_len
  write b str = write_string_len b (c_str str)

  unfoldable pub write_string_sanitized : TBuffer n → List ℕ → Bool × TBuffer n
  unfolding write_string sanitize
  write_string_sanitized b input = write_string b (sanitize (sub_size n 1) input)
