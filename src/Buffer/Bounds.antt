-- ===== src/Buffer/Bounds.antt =====
-- Every operation of a buffer stays inside its array.
use etcs.Base.{
  ℕ, zero, suc, ◌+◌, ◌^◌, ◌<◌, ◌≤◌, ◌≡◌, List, [], ◌∷◌, length, take, set, get_or, replicate,
  length-set, length-replicate, arith, refl, ap,
}
use etcs.Base.Memory.{length-memcpy, memcpy, sub_size, strlen, c_str}
use etcs.Buffer.{
  TBuffer, new, reset, clear, terminate, write_raw, read_raw, write_string, write_string_len,
  sanitize, write_string_sanitized,
}

-- The array has `n` bytes, the offsets are in order and inside it, and a byte of zero stands behind
-- what is written where there is room.
pub record IsValid {n : ℕ} (b : TBuffer n) : Type 0 where
  pub size : length b.buf ≡ n
  pub nonempty : 0 < n
  pub small : n < 2 ^ 63
  pub extent : b.written ≤ n
  pub offset : b.read_offset ≤ b.written
  pub terminated : b.written < n → get_or b.buf b.written 0 ≡ 0

pub get_or-set_self : (xs : List ℕ) (i v d : ℕ) → i < length xs → get_or (set xs i v) i d ≡ v
get_or-set_self [] i v d h = absurd (omega arith)
get_or-set_self (x ∷ xs) zero v d h = refl
get_or-set_self (x ∷ xs) (suc i) v d h = get_or-set_self xs i v d (omega arith)

get_or-replicate : (k i : ℕ) → get_or {A = ℕ} (replicate k 0) i 0 ≡ 0
get_or-replicate zero i = refl
get_or-replicate (suc k) zero = refl
get_or-replicate (suc k) (suc i) = get_or-replicate k i

memcpy-whole : (xs ys : List ℕ) → length xs ≡ length ys → memcpy xs 0 ys ≡ ys
unfolding memcpy
memcpy-whole [] [] h = refl
memcpy-whole [] (y ∷ ys) h = absurd (omega arith)
memcpy-whole (x ∷ xs) [] h = absurd (omega arith)
memcpy-whole (x ∷ xs) (y ∷ ys) h = ap (◌∷◌ y) (memcpy-whole xs ys (omega arith))

pub strlen-le : (s : List ℕ) → strlen s ≤ length s
strlen-le [] = omega arith
strlen-le (c ∷ cs) = ground (arith, strlen-le cs)

pub length-sanitize-le : (room : ℕ) (s : List ℕ) → length (sanitize room s) ≤ room
unfolding sanitize
length-sanitize-le room [] = omega arith
length-sanitize-le zero (c ∷ s) = omega arith
length-sanitize-le (suc room) (c ∷ s) = ground (arith, length-sanitize-le room s)

pub length-take-le {ℓ} : {A : Type ℓ} (k : ℕ) (xs : List A) → length (take k xs) ≤ k
length-take-le zero xs = omega arith
length-take-le (suc k) [] = omega arith
length-take-le (suc k) (x ∷ xs) = omega (arith, length-take-le k xs)

module _ {n : ℕ} where
  pub new-IsValid : 0 < n → n < 2 ^ 63 → IsValid (new n)
  unfolding new
  new-IsValid pos h = record {
    size = length-replicate n 0;
    nonempty = pos;
    small = h;
    extent = omega arith;
    offset = omega arith;
    terminated = λ _. get_or-replicate n 0;
  }

  pub reset-IsValid : {b : TBuffer n} → IsValid b → IsValid (reset b)
  unfolding reset
  reset-IsValid {b} v = ground (arith, length-set b.buf 0 0, get_or-set_self b.buf 0 0 0)

  pub write_raw-IsValid :
      {b : TBuffer n} (bytes : List ℕ)
      → length bytes < 2 ^ 63
      → IsValid b
      → IsValid (write_raw b bytes).1
  unfolding write_raw terminate
  write_raw-IsValid {b} bytes h v = ground (
    arith,
    length-memcpy b.buf b.written bytes,
    length-set (memcpy b.buf b.written bytes) (b.written + length bytes) 0,
    get_or-set_self (memcpy b.buf b.written bytes) (b.written + length bytes) 0 0,
  )

  pub clear-IsValid : {b : TBuffer n} → IsValid b → IsValid (clear b)
  unfolding clear
  clear-IsValid {b} v = ground (
    arith,
    length-memcpy b.buf 0 (replicate n 0),
    memcpy-whole b.buf (replicate n 0),
    length-replicate {0} {A = ℕ} n 0,
    get_or-replicate n 0,
  )

  pub read_raw-IsValid :
      {b : TBuffer n} (len : ℕ) → len < 2 ^ 63 → IsValid b → IsValid (read_raw b len).1
  unfolding read_raw
  read_raw-IsValid {b} len h v = ground arith

  pub write_string-IsValid :
      {b : TBuffer n} (s : List ℕ) → length s < 2 ^ 63 → IsValid b → IsValid (write_string b s).1
  unfolding write_string
  write_string-IsValid {b} s h v = ground (
    arith,
    reset-IsValid v,
    strlen-le s,
    length-memcpy (reset b).buf 0 (c_str s),
    length-set (memcpy (reset b).buf 0 (c_str s)) (strlen s) 0,
    get_or-set_self (memcpy (reset b).buf 0 (c_str s)) (strlen s) 0 0,
  )

  pub write_string_len-IsValid :
      {b : TBuffer n} (s : List ℕ)
      → length s < 2 ^ 63
      → IsValid b
      → IsValid (write_string_len b s).1
  unfolding write_string_len
  write_string_len-IsValid {b} s h v = ground (
    arith,
    length-memcpy b.buf b.written s,
    length-set (memcpy b.buf b.written s) (b.written + length s) 0,
    get_or-set_self (memcpy b.buf b.written s) (b.written + length s) 0 0,
  )

  pub write_string_sanitized-IsValid :
      {b : TBuffer n} (s : List ℕ) → IsValid b → IsValid (write_string_sanitized b s).1
  unfolding write_string_sanitized
  write_string_sanitized-IsValid {b} s v =
      write_string-IsValid (sanitize (sub_size n 1) s)
        (omega (arith, length-sanitize-le (sub_size n 1) s, v.small, v.nonempty)) v
