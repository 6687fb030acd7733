-- ===== src/Buffer/BehindTokens.antt =====
-- core/Buffer.h, the operators on tokens, numbers and buffers with other memory behind the array.
use etcs.Base.{
  suc, [], ◌∷◌, ℕ, zero, Bool, true, false, ◌+◌, ◌-◌, ◌^◌, ◌<◌, ◌≤◌, ◌≡◌, refl, ap, ◌∙◌, List, ◌++◌,
  Option, none, some, length, take, drop, leb, if◌then◌else◌, arith, length-drop,
}
use etcs.Base.Memory.{memcpy, length-memcpy, add_size, sub_size, c_str, strlen}
use etcs.Buffer.{
  TBuffer, write_raw, write, sanitize, write_string_sanitized, to_string, rest_as_string,
}
use etcs.Buffer.Bounds.{IsValid, strlen-le, length-sanitize-le, length-take-le, write_raw-IsValid}
use etcs.Buffer.Contents.{drop-append}
use etcs.Buffer.Tokens.{
  put, unread, token, skip_delimiters, extract_string, insert_buffer, extract_buffer, token_length,
  delimiters_length,
}
use etcs.Buffer.Numbers.{insert_chars, behind_chars, skip_behind, extract_chars}
use etcs.Buffer.TokenBounds.{
  put-InArray, end_token-IsValid, unread-length, token_length-le, skip_delimiters-IsValid,
}
use etcs.Buffer.Behind.{
  with_behind, write_raw-behind, write_string-behind, write_string_len-behind, put-behind,
  end_token-behind, unread-behind, take-append, set-append, memcpy-append,
}

-- The text that is read ends where the unread bytes do.
abbrev pub Short {ℓ} : {A : Type ℓ} → List ℕ → Option (A × ℕ) → Type 0
Short xs none = Unit {0}
Short xs (some (v, k)) = k ≤ length xs

memcpy-nothing : (xs : List ℕ) (k : ℕ) → memcpy xs k [] ≡ xs
unfolding memcpy
memcpy-nothing [] k = refl
memcpy-nothing (x ∷ xs) zero = refl
memcpy-nothing (x ∷ xs) (suc k) = ap (◌∷◌ x) (memcpy-nothing xs k)

take-nothing : (k : ℕ) → take {A = ℕ} k [] ≡ []
take-nothing zero = refl
take-nothing (suc k) = refl

module _ {n : ℕ} where
  -- The text of a number, where it has room or else nothing is left by `to_chars`.
  pub insert_chars-IsValid_any :
      {b : TBuffer n} (text : List ℕ)
      → length text < 2 ^ 63
      → IsValid b
      → IsValid (insert_chars [] b text)
  unfolding insert_chars
  insert_chars-IsValid_any {b} text h v =
      let p = record b {
        buf = memcpy b.buf b.written text;
        written = add_size b.written (length text);
      } in
      ground (
        arith,
        v,
        length-memcpy b.buf b.written text,
        take-nothing (sub_size (sub_size n 1) b.written),
        memcpy-nothing b.buf b.written,
        end_token-IsValid {b = p},
      )

  pub extract_chars-IsValid {ℓ} :
      {A : Type ℓ} {b : TBuffer n} (parse : List ℕ → Option (A × ℕ)) (old : A)
      → Short (unread b) (parse (unread b))
      → IsValid b
      → IsValid (extract_chars parse b old).1
  unfolding extract_chars behind_chars skip_behind
  extract_chars-IsValid {A} {b} parse old short v =
      outer (leb b.written b.read_offset) (at (parse (unread b)) short)
    where
      at :
          (o : Option (A × ℕ)) → Short (unread b) o → IsValid (skip_behind (behind_chars b old o)).1
      at none h =
          let token = record b { read_offset = b.read_offset + token_length (unread b) } in
          skip_delimiters-IsValid {b = token}
            (ground (arith, v, unread-length v, token_length-le (unread b)))
      at (some (x, k)) h =
          skip_delimiters-IsValid {b = record b { read_offset = b.read_offset + k }}
            (ground (arith, v, unread-length v, h))

      outer :
          (done : Bool)
          → IsValid (skip_behind (behind_chars b old (parse (unread b)))).1
          → IsValid
              (if done then (old, b) else skip_behind (behind_chars b old (parse (unread b)))).1
      outer true h = v
      outer false h = h

module _ {n : ℕ} (t : List ℕ) where
  pub insert_chars-behind :
      (left : List ℕ) {b : TBuffer n} (text : List ℕ)
      → length text < 2 ^ 63
      → IsValid b
      → insert_chars left (with_behind t b) text ≡ with_behind t (insert_chars left b text)
  unfolding insert_chars
  insert_chars-behind left {b} text h v =
      let p = record b {
        buf = memcpy b.buf b.written text;
        written = add_size b.written (length text);
      } in
      ground (
        arith,
        v,
        length-memcpy b.buf b.written text,
        memcpy-append b.buf t b.written text,
        memcpy-append b.buf t b.written (take (sub_size (sub_size n 1) b.written) left),
        length-take-le (sub_size (sub_size n 1) b.written) left,
        end_token-behind t {b = p},
      )

  skip_delimiters-behind :
      (b : TBuffer n)
      → b.written ≤ length b.buf
      → skip_delimiters (with_behind t b) ≡ with_behind t (skip_delimiters b)
  unfolding skip_delimiters
  skip_delimiters-behind b h =
      ap (λ s. record b { buf = b.buf ++ t; read_offset = b.read_offset + delimiters_length s })
        (unread-behind t b h)

  pub extract_string-behind :
      {b : TBuffer n}
      → IsValid b
      → extract_string (with_behind t b)
        ≡ ((extract_string b).0, with_behind t (extract_string b).1)
  unfolding extract_string
  extract_string-behind {b} v = ground (
    arith,
    v,
    unread-behind t b,
    skip_delimiters-behind (record b { read_offset = (token b.read_offset (unread b)).1 }),
  )

  pub to_string-behind : {b : TBuffer n} → IsValid b → to_string (with_behind t b) ≡ to_string b
  unfolding to_string
  to_string-behind {b} v = ground (arith, v, take-append b.written b.buf t)

  pub rest_as_string-behind :
      {b : TBuffer n} → IsValid b → rest_as_string (with_behind t b) ≡ rest_as_string b
  unfolding rest_as_string
  rest_as_string-behind {b} v = ground (
    arith,
    v,
    drop-append b.read_offset b.buf t,
    length-drop b.read_offset b.buf,
    take-append (b.written - b.read_offset) (drop b.read_offset b.buf) t,
  )

  pub write-behind :
      {b : TBuffer n} (s : List ℕ)
      → length s < 2 ^ 63
      → IsValid b
      → write (with_behind t b) s ≡ ((write b s).0, with_behind t (write b s).1)
  unfolding write
  write-behind s h v =
      write_string_len-behind t (c_str s) (omega (arith, length-take-le (strlen s) s, strlen-le s))
        v

  pub write_string_sanitized-behind :
      {b : TBuffer n} (s : List ℕ)
      → IsValid b
      → write_string_sanitized (with_behind t b) s
        ≡ ((write_string_sanitized b s).0, with_behind t (write_string_sanitized b s).1)
  unfolding write_string_sanitized
  write_string_sanitized-behind s v =
      write_string-behind t (sanitize (sub_size n 1) s)
        (omega (arith, length-sanitize-le (sub_size n 1) s, v.small, v.nonempty)) v

  pub extract_chars-behind {ℓ} :
      {A : Type ℓ} {b : TBuffer n} (parse : List ℕ → Option (A × ℕ)) (old : A)
      → IsValid b
      → extract_chars parse (with_behind t b) old
        ≡ ((extract_chars parse b old).0, with_behind t (extract_chars parse b old).1)
  unfolding extract_chars behind_chars skip_behind
  extract_chars-behind {A} {b} parse old v =
      ap
        (λ xs.
          if leb b.written b.read_offset
          then (old, with_behind t b)
          else skip_behind (behind_chars (with_behind t b) old (parse xs)))
        e
      ∙ outer (leb b.written b.read_offset) (at (parse (unread b)))
    where
      inside : b.written ≤ length b.buf
      inside = omega (arith, v.size, v.extent)

      e : unread (with_behind t b) ≡ unread b
      e = unread-behind t b inside

      at :
          (o : Option (A × ℕ))
          → skip_behind (behind_chars (with_behind t b) old o) ≡ (
            (skip_behind (behind_chars b old o)).0,
            with_behind t (skip_behind (behind_chars b old o)).1,
          )
      at none =
          ap
            (λ xs.
              skip_behind
                (old, record (with_behind t b) { read_offset = b.read_offset + token_length xs }))
            e
          ∙ ap (λ c. (old, c))
              (skip_delimiters-behind
                (record b { read_offset = b.read_offset + token_length (unread b) }) inside)
      at (some (x, k)) =
          ap (λ c. (x, c))
            (skip_delimiters-behind (record b { read_offset = b.read_offset + k }) inside)

      outer :
          (done : Bool)
          → skip_behind (behind_chars (with_behind t b) old (parse (unread b))) ≡ (
            (skip_behind (behind_chars b old (parse (unread b)))).0,
            with_behind t (skip_behind (behind_chars b old (parse (unread b)))).1,
          )
          → (if done
              then (old, with_behind t b)
              else skip_behind (behind_chars (with_behind t b) old (parse (unread b))))
            ≡ (
              (if done then (old, b) else skip_behind (behind_chars b old (parse (unread b)))).0,
              with_behind t
                  (if done
                    then (old, b)
                    else skip_behind (behind_chars b old (parse (unread b)))).1,
            )
      outer true h = refl
      outer false h = h

module _ {n m : ℕ} (t : List ℕ) where
  pub insert_buffer-behind :
      {b : TBuffer n} {c : TBuffer m}
      → IsValid b
      → IsValid c
      → insert_buffer (with_behind t b) c ≡ with_behind t (insert_buffer b c)
  unfolding insert_buffer
  insert_buffer-behind {b} {c} v w =
      let bytes = take c.written c.buf in
      let r = (write_raw b bytes).1 in
      ground (
        arith,
        length-take-le c.written c.buf,
        write_raw-behind t {b = b} bytes,
        write_raw-IsValid {b = b} bytes,
        put-InArray {b = r} b' ',
        put-behind t {b = r} b' ',
        set-append (put r b' ').buf t (r.written + 1) 0,
      )

  -- The source's memory and the destination's.
  pub extract_buffer-behind :
      {b : TBuffer n} {c : TBuffer m}
      → IsValid b
      → IsValid c
      → (extract_buffer (with_behind t b) c
          ≡ (with_behind t (extract_buffer b c).0, (extract_buffer b c).1))
        × (extract_buffer b (with_behind t c)
            ≡ ((extract_buffer b c).0, with_behind t (extract_buffer b c).1))
  unfolding extract_buffer
  extract_buffer-behind {b} {c} v w =
      let u = unread-behind t b in
      let l = unread-length v in
      (ground (arith, v, w, u, l), ground (arith, v, w, l, write_raw-behind t {b = c} (unread b)))
