-- ===== src/Buffer/Values.antt =====
-- core/Buffer.h, numbers, Booleans and strings written one after another by `operator<<` and taken
-- out again by `operator>>`.
use etcs.Base.{
  ℕ, ◌+◌, ◌<◌, ◌≤◌, ◌≡◌, refl, sym, ap, ◌∙◌, false, List, [], ◌∷◌, ◌++◌, Option, some, ltb, leb,
  subst, length, length-append, drop, arith,
}
use etcs.Base.Memory.{add_size, sub_size, memcpy, take-memcpy, length-memcpy}
use etcs.Buffer.{TBuffer}
use etcs.Buffer.Bounds.{IsValid}
use etcs.Buffer.TokenBounds.{InArray, unread-length, skip_delimiters-IsValid, end_token-IsValid}
use etcs.Buffer.Contents.{contents, drop-drop}
use etcs.Buffer.Tokens.{unread, skip_delimiters, end_token, delimiters_length}
use etcs.Buffer.Numbers.{insert_chars, extract_chars, behind_chars, skip_behind}
use etcs.Buffer.RoundTrip.{
  Appends, Appends-append, Starts, delimiters_length-Starts, drop-length-append, end_token-Appends,
}

module _ {n : ℕ} where
  -- The bytes of the text, before its blank.
  text_put : TBuffer n → List ℕ → TBuffer n
  text_put b text = record b {
    buf = memcpy b.buf b.written text;
    written = add_size b.written (length text);
  }

  text_put-Appends :
      {b : TBuffer n} (text : List ℕ)
      → b.written + length text ≤ n
      → InArray b
      → Appends b text (text_put b text)
  unfolding text_put
  text_put-Appends {b} text h v =
      ground (arith, v, take-memcpy b.buf b.written text, length-memcpy b.buf b.written text)

  insert_chars_lem :
      (left : List ℕ) {b : TBuffer n} (text : List ℕ)
      → b.written + length text + 2 ≤ n
      → InArray b
      → insert_chars left b text ≡ end_token (text_put b text)
  unfolding insert_chars text_put
  insert_chars_lem left {b} text h v =
      let room : leb (sub_size n 1) b.written ≡ false = ground (arith, v.small, h) in
      let fits : ltb (sub_size (sub_size n 1) b.written) (length text) ≡ false =
        ground (arith, v.small, h) in
      rw (room, fits) refl

  -- The text of a number goes behind what there is, with a blank, where there is room for both.
  pub insert_chars-Appends :
      (left : List ℕ) {b : TBuffer n} (text : List ℕ)
      → b.written + length text + 2 ≤ n
      → InArray b
      → Appends b (text ++ b' ' ∷ []) (insert_chars left b text)
  insert_chars-Appends left {b} text h v =
      let one = text_put-Appends {b = b} text (omega arith) v in
      let two = end_token-Appends {b = text_put b text} (omega (arith, one.count)) one.valid in
      subst (Appends b (text ++ b' ' ∷ [])) (sym (insert_chars_lem left text h v))
        (Appends-append text (b' ' ∷ []) one two)

  pub insert_chars-IsValid :
      (left : List ℕ) {b : TBuffer n} (text : List ℕ)
      → b.written + length text + 2 ≤ n
      → InArray b
      → IsValid (insert_chars left b text)
  insert_chars-IsValid left {b} text h v =
      let one = text_put-Appends {b = b} text (omega arith) v in
      subst IsValid (sym (insert_chars_lem left text h v))
        (end_token-IsValid {b = text_put b text} (omega (arith, one.count)) one.valid)

  -- Text that the parser takes whole is taken off the front with the blank behind it.
  pub extract_chars_lem {ℓ} :
      {A : Type ℓ} {b : TBuffer n} (parse : List ℕ → Option (A × ℕ)) (text rest : List ℕ)
      (old v : A)
      → IsValid b
      → unread b ≡ text ++ b' ' ∷ rest
      → Starts rest
      → parse (text ++ b' ' ∷ rest) ≡ some (v, length text)
      → ((extract_chars parse b old).0 ≡ v)
        × (unread (extract_chars parse b old).1 ≡ rest)
        × IsValid (extract_chars parse b old).1
  unfolding extract_chars behind_chars skip_behind skip_delimiters
  extract_chars_lem {b} parse text rest old v valid e h p =
      let x = extracted in
      (
        ap (λ t. t.0) x,
        ap (λ t. unread t.1) x ∙ left,
        subst IsValid (sym (ap (λ t. t.1) x)) (skip_delimiters-IsValid {b = behind} behind-IsValid),
      )
    where
      behind : TBuffer n
      behind = record b { read_offset = b.read_offset + length text }

      more : b.read_offset + length text < b.written
      more = omega (arith, ap length e, length-append text (b' ' ∷ rest), unread-length valid)

      still : leb b.written b.read_offset ≡ false
      still = ground (arith, more)

      extracted : extract_chars parse b old ≡ (v, skip_delimiters behind)
      extracted = rw (still, ap parse e ∙ p) refl

      blank : unread behind ≡ b' ' ∷ rest
      blank =
          sym (drop-drop b.read_offset (length text) (contents b))
          ∙ ap (drop (length text)) e
          ∙ drop-length-append text (b' ' ∷ rest)

      left : unread (skip_delimiters behind) ≡ rest
      left =
          sym (
            drop-drop (b.read_offset + length text) (delimiters_length (unread behind))
              (contents b))
          ∙ ap (λ k. drop k (unread behind))
              (ap delimiters_length blank ∙ delimiters_length-Starts rest h)
          ∙ ap (drop 1) blank

      behind-IsValid : IsValid behind
      behind-IsValid = ground (arith, valid, more)
