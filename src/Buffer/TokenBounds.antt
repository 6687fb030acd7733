-- ===== src/Buffer/TokenBounds.antt =====
-- The stream operators stay inside the array: the loops over a token end at the write extent, and an
-- escaped string keeps room for its quote and its terminator.
use etcs.Base.{
  ℕ, ◌++◌, ◌+◌, ◌-◌, ◌^◌, ◌<◌, ◌≤◌, ◌≡◌, List, [], ◌∷◌, length, take, length-set, length-take,
  length-drop, arith,
}
use etcs.Buffer.{TBuffer, write_raw}
use etcs.Buffer.Bounds.{IsValid, get_or-set_self, length-take-le, write_raw-IsValid}
use etcs.Buffer.Tokens.{
  put, put_escaped, end_token, insert_string, insert_buffer, extract_string, extract_buffer,
  delimiters_length, token_length, token, quoted, unread, skip_delimiters,
}

pub delimiters_length-le : (xs : List ℕ) → delimiters_length xs ≤ length xs
unfolding delimiters_length
delimiters_length-le [] = omega arith
delimiters_length-le (x ∷ xs) = ground (arith, delimiters_length-le xs)

pub token_length-le : (xs : List ℕ) → token_length xs ≤ length xs
unfolding token_length
token_length-le [] = omega arith
token_length-le (x ∷ xs) = ground (arith, token_length-le xs)

-- `current` moves on, and not past the end.
quoted-bounds :
    (q : ℕ) (xs val : List ℕ) (cur : ℕ)
    → (cur ≤ (quoted q xs val cur).1) × ((quoted q xs val cur).1 ≤ cur + length xs)
unfolding quoted
quoted-bounds q [] val cur = omega arith
quoted-bounds q (c ∷ []) val cur = ground arith
quoted-bounds q (c ∷ d ∷ rest) val cur = ground (
  arith,
  quoted-bounds q rest (val ++ d ∷ []) (cur + 2),
  quoted-bounds q (d ∷ rest) (val ++ c ∷ []) (cur + 1),
)

pub token-bounds :
    (start : ℕ) (xs : List ℕ)
    → (start ≤ (token start xs).1) × ((token start xs).1 ≤ start + length xs)
unfolding token
token-bounds start [] = omega arith
token-bounds start (c ∷ cs) =
    ground (arith, quoted-bounds c cs [] (start + 1), token_length-le (c ∷ cs))

module _ {n : ℕ} where
  -- What holds while a token is being written: all of a valid buffer but the terminator.
  pub record InArray (b : TBuffer n) : Type 0 where
    pub size : length b.buf ≡ n
    pub small : n < 2 ^ 63
    pub extent : b.written ≤ n
    pub offset : b.read_offset ≤ b.written

  pub put-InArray :
      {b : TBuffer n} (c : ℕ)
      → b.written < n
      → InArray b
      → InArray (put b c) × ((put b c).written ≡ b.written + 1)
  unfolding put
  put-InArray {b} c h v = ground (arith, length-set b.buf b.written c)

  pub put_escaped-InArray :
      (val : List ℕ) (b : TBuffer n)
      → 4 ≤ n
      → b.written + 2 ≤ n
      → InArray b
      → InArray (put_escaped b val) × ((put_escaped b val).written + 2 ≤ n)
  unfolding put_escaped
  put_escaped-InArray [] b big h v = (v, h)
  put_escaped-InArray (c ∷ cs) b big h v = ground (
    arith,
    put-InArray 92 (omega arith) v,
    put-InArray {b = put b 92} c,
    put-InArray {b = b} c (omega arith) v,
    put_escaped-InArray cs (put (put b 92) c) big,
    put_escaped-InArray cs (put b c) big,
  )

  pub end_token-IsValid : {b : TBuffer n} → b.written < n → InArray b → IsValid (end_token b)
  unfolding end_token
  end_token-IsValid {b} h v = ground (
    arith,
    put-InArray b' ' h v,
    length-set b.buf b.written 0,
    length-set (put b b' ').buf (b.written + 1) 0,
    get_or-set_self b.buf b.written 0 0,
    get_or-set_self (put b b' ').buf (b.written + 1) 0 0,
  )

  -- `operator<<` of a string keeps a buffer of at least four bytes valid, whatever the string.
  pub insert_string-IsValid :
      {b : TBuffer n} (val : List ℕ) → 4 ≤ n → IsValid b → IsValid (insert_string b val)
  unfolding insert_string
  insert_string-IsValid {b} val big v = ground (
    arith,
    put-InArray {b = b} b'"',
    put_escaped-InArray val (put b b'"') big,
    put-InArray {b = put_escaped (put b b'"') val} b'"',
    end_token-IsValid {b = put (put_escaped (put b b'"') val) b'"'},
  )

  pub unread-length : {b : TBuffer n} → IsValid b → length (unread b) ≡ b.written - b.read_offset
  unread-length {b} v = omega (
    arith,
    length-drop b.read_offset (take b.written b.buf),
    length-take b.written b.buf,
    v.size,
    v.extent,
  )

  -- Moving the read offset up to the write extent.
  pub skip_delimiters-IsValid : {b : TBuffer n} → IsValid b → IsValid (skip_delimiters b)
  unfolding skip_delimiters
  skip_delimiters-IsValid {b} v = ground (arith, unread-length v, delimiters_length-le (unread b))

  pub extract_string-IsValid : {b : TBuffer n} → IsValid b → IsValid (extract_string b).1
  unfolding extract_string
  extract_string-IsValid {b} v = ground (
    arith,
    unread-length v,
    token-bounds b.read_offset (unread b),
    skip_delimiters-IsValid {b = record b { read_offset = (token b.read_offset (unread b)).1 }},
  )

module _ {n m : ℕ} where
  pub insert_buffer-IsValid :
      {b : TBuffer n} {c : TBuffer m} → IsValid b → IsValid c → IsValid (insert_buffer b c)
  unfolding insert_buffer
  insert_buffer-IsValid {b} {c} v w =
      let r = (write_raw b (take c.written c.buf)).1 in
      ground (
        arith,
        length-take-le c.written c.buf,
        write_raw-IsValid {b = b} (take c.written c.buf),
        put-InArray {b = r} b' ',
        length-set (put r b' ').buf (r.written + 1) 0,
        get_or-set_self (put r b' ').buf (r.written + 1) 0 0,
      )

  pub extract_buffer-IsValid :
      {b : TBuffer n} {c : TBuffer m}
      → IsValid b
      → IsValid c
      → IsValid (extract_buffer b c).0 × IsValid (extract_buffer b c).1
  unfolding extract_buffer
  extract_buffer-IsValid {b} {c} v w =
      ground (arith, unread-length v, write_raw-IsValid {b = c} (unread b))
