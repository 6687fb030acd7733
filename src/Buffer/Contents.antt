-- ===== src/Buffer/Contents.antt =====
-- What a buffer holds: raw writes append to it, raw reads take from its front.
use etcs.Base.{
  ℕ, zero, suc, ◌++◌, ◌+◌, ◌^◌, ◌<◌, ◌≤◌, ◌≡◌, refl, sym, ap, ◌∙◌, true, List, [], ◌∷◌, length,
  take, drop, some, none, leb, if◌then◌else◌, length-take, length-drop, arith,
}
use etcs.Base.Memory.{take-memcpy, take-set_above, memcpy}
use etcs.Buffer.{TBuffer, write_raw, read_raw}
use etcs.Buffer.Bounds.{IsValid}
use etcs.Buffer.Tokens.{unread}

abbrev pub contents : {n : ℕ} → TBuffer n → List ℕ
contents b = take b.written b.buf

module _ {ℓ} {A : Type ℓ} where
  pub drop-append : (k : ℕ) (xs ys : List A) → k ≤ length xs → drop k (xs ++ ys) ≡ drop k xs ++ ys
  drop-append zero xs ys h = refl
  drop-append (suc k) [] ys h = absurd (omega arith)
  drop-append (suc k) (x ∷ xs) ys h = drop-append k xs ys (omega arith)

  pub drop-nil : (k : ℕ) → drop {A = A} k [] ≡ []
  drop-nil zero = refl
  drop-nil (suc k) = refl

  pub drop-drop : (j k : ℕ) (xs : List A) → drop k (drop j xs) ≡ drop (j + k) xs
  drop-drop zero k xs = let e : k ≡ 0 + k = omega arith in ap (λ m. drop m xs) e
  drop-drop (suc j) k [] = drop-nil k ∙ sym (drop-nil (suc j + k))
  drop-drop (suc j) k (x ∷ xs) =
      let e : suc (j + k) ≡ suc j + k = omega arith in
      drop-drop j k xs ∙ ap (λ m. drop m (x ∷ xs)) e

  pub take-take : (k w : ℕ) (xs : List A) → k ≤ w → take k (take w xs) ≡ take k xs
  take-take zero w xs h = refl
  take-take (suc k) zero xs h = absurd (omega arith)
  take-take (suc k) (suc w) [] h = refl
  take-take (suc k) (suc w) (x ∷ xs) h = ap (◌∷◌ x) (take-take k w xs (omega arith))

  pub take-drop-take :
      (j k w : ℕ) (xs : List A) → j + k ≤ w → take k (drop j (take w xs)) ≡ take k (drop j xs)
  take-drop-take zero k w xs h = take-take k w xs (omega arith)
  take-drop-take (suc j) k zero xs h = absurd (omega arith)
  take-drop-take (suc j) k (suc w) [] h = refl
  take-drop-take (suc j) k (suc w) (x ∷ xs) h = take-drop-take j k w xs (omega arith)

module _ {n : ℕ} where
  -- A raw write that fits appends its bytes and says so; one that does not fit changes nothing.
  -- Either way the read offset stays.
  pub contents-write_raw :
      {b : TBuffer n} (bytes : List ℕ)
      → IsValid b
      → length bytes < 2 ^ 63
      → let (done, r) = write_raw b bytes in
        (done ≡ leb (b.written + length bytes) n)
        × (contents r
            ≡ (if leb (b.written + length bytes) n then contents b ++ bytes else contents b))
        × (r.read_offset ≡ b.read_offset)
  unfolding write_raw
  contents-write_raw {b} bytes v h = ground (
    arith,
    take-memcpy b.buf b.written bytes,
    take-set_above (memcpy b.buf b.written bytes) (b.written + length bytes)
        (b.written + length bytes) 0,
  )

  pub length-contents : {b : TBuffer n} → IsValid b → length (contents b) ≡ b.written
  length-contents {b} v = omega (arith, length-take b.written b.buf, v.size, v.extent)

  -- A raw write joins the unread bytes at their end.
  pub unread-write_raw :
      {b : TBuffer n} (bytes : List ℕ)
      → IsValid b
      → b.written + length bytes ≤ n
      → ((write_raw b bytes).0 ≡ true) × (unread (write_raw b bytes).1 ≡ unread b ++ bytes)
  unread-write_raw {b} bytes v h = ground (
    arith,
    contents-write_raw {b = b} bytes v,
    drop-append b.read_offset (contents b) bytes,
    length-contents v,
  )

  -- A raw read hands out the first unread bytes and leaves the others, or, where there are too few,
  -- hands out none and leaves the buffer.
  pub read_raw_lem :
      {b : TBuffer n} (len : ℕ)
      → IsValid b
      → len < 2 ^ 63
      → let (out, r) = read_raw b len in
        (out ≡ (if leb len (length (unread b)) then some (take len (unread b)) else none))
        × (unread r ≡ (if leb len (length (unread b)) then drop len (unread b) else unread b))
        × (contents r ≡ contents b)
  unfolding read_raw
  read_raw_lem {b} len v h = ground (
    arith,
    length-drop b.read_offset (contents b),
    length-contents v,
    take-drop-take b.read_offset len b.written b.buf,
    drop-drop b.read_offset len (contents b),
  )
