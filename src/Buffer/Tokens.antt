-- ===== src/Buffer/Tokens.antt =====
-- core/Buffer.h, the stream operators of `TBuffer`: a string goes in quoted and escaped with a
-- blank behind it, and is taken out again; a buffer goes in or out as bytes.
use etcs.Base.{
  ℕ, suc, ◌+◌, Bool, ◌||◌, List, [], ◌∷◌, ◌++◌, ltb, leb, ◌==◌, if◌then◌else◌, take, drop, set,
}
use etcs.Base.Memory.{add_size, sub_size}
use etcs.Buffer.{TBuffer, write_raw}

abbrev pub is_delimiter : ℕ → Bool
is_delimiter c = c == b' ' || c == b','

abbrev pub is_quote : ℕ → Bool
is_quote c = c == b'"' || c == 39

-- The loop over a quoted token: the characters between `current` and `end`, what has been pushed,
-- and `current`. It returns the value and the new `current`.
unfoldable pub quoted : ℕ → List ℕ → List ℕ → ℕ → List ℕ × ℕ
quoted quote [] val current = (val, current)
quoted quote (c ∷ []) val current =
    if c == 92
    then (val, current + 1)
    else if c == quote
    then (val, current + 1)
    else (val ++ c ∷ [], current + 1)
quoted quote (c ∷ d ∷ rest) val current =
    let escaped = quoted quote rest (val ++ d ∷ []) (current + 2) in
    let plain = quoted quote (d ∷ rest) (val ++ c ∷ []) (current + 1) in
    if c == 92 then escaped else if c == quote then (val, current + 1) else plain

-- The length of an unquoted token.
unfoldable pub token_length : List ℕ → ℕ
token_length [] = 0
token_length (c ∷ cs) = if is_delimiter c then 0 else suc (token_length cs)

unfoldable pub delimiters_length : List ℕ → ℕ
delimiters_length [] = 0
delimiters_length (c ∷ cs) = if is_delimiter c then suc (delimiters_length cs) else 0

-- `current` at the end of the token, and the value
unfoldable pub token : ℕ → List ℕ → List ℕ × ℕ
token start [] = ([], start)
token start (c ∷ cs) =
    if is_quote c
    then quoted c cs [] (start + 1)
    else (take (token_length (c ∷ cs)) (c ∷ cs), start + token_length (c ∷ cs))

-- A quote, a backslash: `operator<<` writes a backslash before it.
abbrev pub needs_escape : ℕ → Bool
needs_escape c = c == b'"' || c == 92

module _ {n : ℕ} where
  -- The bytes from the read offset to the write extent.
  abbrev pub unread : TBuffer n → List ℕ
  unread b = drop b.read_offset (take b.written b.buf)

  -- The loops that skip trailing delimiters.
  unfoldable pub skip_delimiters : TBuffer n → TBuffer n
  skip_delimiters b = record b { read_offset = b.read_offset + delimiters_length (unread b) }

  -- `operator>>(TBuffer&, std::string&)`
  unfoldable pub extract_string : TBuffer n → List ℕ × TBuffer n
  unfolding token quoted skip_delimiters token_length delimiters_length
  extract_string b =
      if leb b.written b.read_offset
      then ([], b)
      else let (val, current) = token b.read_offset (unread b) in
        (val, skip_delimiters (record b { read_offset = current }))

  -- `b.buf[b.written++] = c`
  unfoldable pub put : TBuffer n → ℕ → TBuffer n
  put b c = record b { buf = set b.buf b.written c; written = add_size b.written 1 }

  -- The delimiter and the terminator behind a token.
  unfoldable pub end_token : TBuffer n → TBuffer n
  unfolding put
  end_token b =
      let spaced = if ltb b.written (sub_size n 1) then put b b' ' else b in
      record spaced { buf = set spaced.buf spaced.written 0 }

  unfoldable pub put_escaped : TBuffer n → List ℕ → TBuffer n
  unfolding put
  put_escaped b [] = b
  put_escaped b (c ∷ cs) =
      if leb (sub_size n 3) b.written
      then b
      else put_escaped (put (if needs_escape c then put b 92 else b) c) cs

  -- `operator<<(TBuffer&, const std::string&)`
  unfoldable pub insert_string : TBuffer n → List ℕ → TBuffer n
  unfolding put put_escaped end_token
  insert_string b val =
      if leb (sub_size n 4) b.written
      then b
      else end_token (put (put_escaped (put b b'"') val) b'"')

module _ {n m : ℕ} where
  -- `operator<<(TBuffer<N>&, const TBuffer<M>&)`
  unfoldable pub insert_buffer : TBuffer n → TBuffer m → TBuffer n
  unfolding put
  insert_buffer b val =
      let r = (write_raw b (take val.written val.buf)).1 in
      if ltb r.written (sub_size n 1)
      then (let s = put r b' ' in record s { buf = set s.buf s.written 0 })
      else r

  -- `operator>>(TBuffer<N>&, TBuffer<M>&)`: the source is consumed, also where nothing fits.
  unfoldable pub extract_buffer : TBuffer n → TBuffer m → TBuffer n × TBuffer m
  extract_buffer src dest = (
    record src { read_offset = src.written },
    if ltb src.read_offset src.written then (write_raw dest (unread src)).1 else dest,
  )
