-- ===== src/Buffer/Behind.antt =====
-- core/Buffer.h, the operations of a buffer that has other memory behind its array: none reads or
-- writes past the array's end.
use etcs.Base.{
  ℕ, zero, suc, ◌+◌, ◌^◌, ◌<◌, ◌≤◌, ◌≡◌, refl, ap, List, [], ◌∷◌, ◌++◌, length, take, drop, set,
  arith, length-take, length-replicate, replicate, length-drop,
}
use etcs.Base.Memory.{memcpy, length-memcpy, c_str, strlen}
use etcs.Buffer.{
  TBuffer, reset, clear, terminate, write_raw, read_raw, write_string, write_string_len,
}
use etcs.Buffer.Bounds.{IsValid, reset-IsValid, strlen-le}
use etcs.Buffer.Contents.{drop-append}
use etcs.Buffer.Tokens.{put, put_escaped, end_token, insert_string, unread}
use etcs.Buffer.TokenBounds.{InArray, put-InArray, put_escaped-InArray}

module _ {ℓ} {A : Type ℓ} where
  pub set-append :
      (xs t : List A) (i : ℕ) (v : A) → i < length xs → set (xs ++ t) i v ≡ set xs i v ++ t
  set-append [] t i v h = absurd (omega arith)
  set-append (x ∷ xs) t zero v h = refl
  set-append (x ∷ xs) t (suc i) v h = ap (◌∷◌ x) (set-append xs t i v (omega arith))

  pub memcpy-append :
      (xs t : List A) (k : ℕ) (src : List A)
      → k + length src ≤ length xs
      → memcpy (xs ++ t) k src ≡ memcpy xs k src ++ t
  unfolding memcpy
  memcpy-append [] [] zero [] h = refl
  memcpy-append [] (y ∷ t) zero [] h = refl
  memcpy-append [] t zero (d ∷ src) h = absurd (omega arith)
  memcpy-append [] t (suc k) src h = absurd (omega arith)
  memcpy-append (x ∷ xs) t zero [] h = refl
  memcpy-append (x ∷ xs) t zero (d ∷ src) h = ap (◌∷◌ d) (memcpy-append xs t zero src (omega arith))
  memcpy-append (x ∷ xs) t (suc k) src h = ap (◌∷◌ x) (memcpy-append xs t k src (omega arith))

  pub take-append : (k : ℕ) (xs t : List A) → k ≤ length xs → take k (xs ++ t) ≡ take k xs
  take-append zero xs t h = refl
  take-append (suc k) [] t h = absurd (omega arith)
  take-append (suc k) (x ∷ xs) t h = ap (◌∷◌ x) (take-append k xs t (omega arith))

module _ {n : ℕ} (t : List ℕ) where
  -- The buffer with the memory behind its array in reach.
  abbrev pub with_behind : TBuffer n → TBuffer n
  with_behind b = record b { buf = b.buf ++ t }

  pub reset-behind : {b : TBuffer n} → IsValid b → reset (with_behind b) ≡ with_behind (reset b)
  unfolding reset
  reset-behind {b} v = ground (arith, v, set-append b.buf t 0 0)

  pub clear-behind : {b : TBuffer n} → IsValid b → clear (with_behind b) ≡ with_behind (clear b)
  unfolding clear
  clear-behind {b} v =
      ground (arith, v, memcpy-append b.buf t 0 (replicate n 0), length-replicate {0} {A = ℕ} n 0)

  pub write_raw-behind :
      {b : TBuffer n} (bytes : List ℕ)
      → length bytes < 2 ^ 63
      → IsValid b
      → write_raw (with_behind b) bytes ≡ ((write_raw b bytes).0, with_behind (write_raw b bytes).1)
  unfolding write_raw terminate
  write_raw-behind {b} bytes h v = ground (
    arith,
    v,
    memcpy-append b.buf t b.written bytes,
    length-memcpy b.buf b.written bytes,
    set-append (memcpy b.buf b.written bytes) t (b.written + length bytes) 0,
  )

  pub read_raw-behind :
      {b : TBuffer n} (len : ℕ)
      → len < 2 ^ 63
      → IsValid b
      → read_raw (with_behind b) len ≡ ((read_raw b len).0, with_behind (read_raw b len).1)
  unfolding read_raw
  read_raw-behind {b} len h v = ground (
    arith,
    v,
    drop-append b.read_offset b.buf t,
    length-drop b.read_offset b.buf,
    take-append len (drop b.read_offset b.buf) t,
  )

  pub write_string-behind :
      {b : TBuffer n} (s : List ℕ)
      → length s < 2 ^ 63
      → IsValid b
      → write_string (with_behind b) s ≡ ((write_string b s).0, with_behind (write_string b s).1)
  unfolding write_string
  write_string-behind {b} s h v =
      let r = reset b in
      let valid = reset-IsValid v in
      let size = length-take (strlen s) s in
      let few = strlen-le s in
      let copied : strlen s + 1 ≤ n
          → memcpy (r.buf ++ t) 0 (c_str s) ≡ memcpy r.buf 0 (c_str s) ++ t =
        λ f. memcpy-append r.buf t 0 (c_str s) (omega (arith, valid.size)) in
      ground (
        arith,
        reset-behind v,
        copied,
        length-memcpy r.buf 0 (c_str s),
        set-append (memcpy r.buf 0 (c_str s)) t (strlen s) 0,
      )

  pub write_string_len-behind :
      {b : TBuffer n} (s : List ℕ)
      → length s < 2 ^ 63
      → IsValid b
      → write_string_len (with_behind b) s
        ≡ ((write_string_len b s).0, with_behind (write_string_len b s).1)
  unfolding write_string_len
  write_string_len-behind {b} s h v = ground (
    arith,
    v,
    memcpy-append b.buf t b.written s,
    length-memcpy b.buf b.written s,
    set-append (memcpy b.buf b.written s) t (b.written + length s) 0,
  )

  pub put-behind :
      {b : TBuffer n} (c : ℕ)
      → b.written < n
      → InArray b
      → put (with_behind b) c ≡ with_behind (put b c)
  unfolding put
  put-behind {b} c h v = ground (arith, v, set-append b.buf t b.written c)

  pub end_token-behind :
      {b : TBuffer n}
      → b.written < n
      → InArray b
      → end_token (with_behind b) ≡ with_behind (end_token b)
  unfolding end_token
  end_token-behind {b} h v = ground (
    arith,
    v,
    put-behind b' ' h v,
    put-InArray b' ' h v,
    set-append b.buf t b.written 0,
    set-append (put b b' ').buf t (b.written + 1) 0,
  )

  put_escaped-behind :
      (val : List ℕ) (b : TBuffer n)
      → 4 ≤ n
      → b.written + 2 ≤ n
      → InArray b
      → put_escaped (with_behind b) val ≡ with_behind (put_escaped b val)
  unfolding put_escaped
  put_escaped-behind [] b big h v = refl
  put_escaped-behind (c ∷ cs) b big h v = ground (
    arith,
    put-InArray 92 (omega arith) v,
    put-behind 92 (omega arith) v,
    put-InArray {b = put b 92} c,
    put-behind {b = put b 92} c,
    put-InArray {b = b} c (omega arith) v,
    put-behind {b = b} c (omega arith) v,
    put_escaped-behind cs (put (put b 92) c) big,
    put_escaped-behind cs (put b c) big,
  )

  pub insert_string-behind :
      {b : TBuffer n} (val : List ℕ)
      → 4 ≤ n
      → IsValid b
      → insert_string (with_behind b) val ≡ with_behind (insert_string b val)
  unfolding insert_string
  insert_string-behind {b} val big v = ground (
    arith,
    put-InArray {b = b} b'"',
    put-behind {b = b} b'"',
    put_escaped-InArray val (put b b'"') big,
    put_escaped-behind val (put b b'"') big,
    put-InArray {b = put_escaped (put b b'"') val} b'"',
    put-behind {b = put_escaped (put b b'"') val} b'"',
    end_token-behind {b = put (put_escaped (put b b'"') val) b'"'},
  )

  pub unread-behind : (b : TBuffer n) → b.written ≤ length b.buf → unread (with_behind b) ≡ unread b
  unread-behind b h = ap (drop b.read_offset) (take-append b.written b.buf t h)
