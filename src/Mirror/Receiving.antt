-- ===== src/Mirror/Receiving.antt =====
-- core/MirrorBuffer.h, what `tryExtractInto` and `fillAndCopyInto` take off the pipe.
use etcs.Base.{
  ℕ, zero, suc, ◌+◌, ◌-◌, ◌^◌, ◌<◌, ◌≤◌, ◌≡◌, refl, sym, ap, ◌∙◌, Bool, true, false, List, [], ◌∷◌,
  ◌++◌, length, take, drop, arith, length-drop, length-set, length-take,
}
use etcs.Base.Memory.{memcpy, take-memcpy, length-memcpy, take-set_above}
use etcs.Buffer.{TBuffer, reset}
use etcs.Buffer.Contents.{take-drop-take, drop-drop, drop-append}
use etcs.Buffer.TokenBounds.{InArray}
use etcs.Buffer.Tokens.{unread}
use etcs.Mirror.Frames.{frame, read_le, take-nil, read_le-stream, take-stream, drop-stream}
use etcs.Mirror.Pipe.{try_extract_into, compact, receive_bytes}

module _ {m : ℕ} {in_ : TBuffer m} where
  pub length-unread : InArray in_ → length (unread in_) ≡ in_.written - in_.read_offset
  length-unread v = omega (
    arith,
    length-drop in_.read_offset (take in_.written in_.buf),
    length-take in_.written in_.buf,
    v.size,
    v.extent,
  )

module _ {ℓ} {A : Type ℓ} where
  pub slice : (j k : ℕ) (xs : List A) → take k (drop j xs) ≡ drop j (take (j + k) xs)
  slice zero k xs = let e : k ≡ 0 + k = omega arith in ap (λ w. take w xs) e
  slice (suc j) k [] = take-nil k ∙ sym (ap (drop (suc j)) (take-nil (suc j + k)))
  slice (suc j) k (x ∷ xs) =
      let e : suc (j + k) ≡ suc j + k = omega arith in
      slice j k xs ∙ ap (λ w. drop (suc j) (take w (x ∷ xs))) e

  pub drop-nothing : (j w : ℕ) (xs : List A) → w ≤ j → drop j (take w xs) ≡ []
  drop-nothing zero zero xs h = refl
  drop-nothing zero (suc w) xs h = absurd (omega arith)
  drop-nothing (suc j) zero xs h = refl
  drop-nothing (suc j) (suc w) [] h = refl
  drop-nothing (suc j) (suc w) (x ∷ xs) h = drop-nothing j w xs (omega arith)

module _ {m : ℕ} (in_ : TBuffer m) where
  reset_lem :
      InArray in_ → InArray (reset in_) × (unread (reset in_) ≡ []) × ((reset in_).read_offset ≡ 0)
  unfolding reset
  reset_lem v = ground (arith, v, length-set in_.buf 0 0)

  -- Moving the unread bytes to the front leaves what is to be read.
  pub compact_lem :
      InArray in_
      → InArray (compact in_)
        × (unread (compact in_) ≡ unread in_)
        × ((compact in_).written ≡ length (unread in_))
  unfolding compact
  compact_lem v = ground (
    arith,
    v,
    length-unread v,
    reset_lem v,
    slice in_.read_offset (in_.written - in_.read_offset) in_.buf,
    length-memcpy in_.buf 0 (unread in_),
    take-memcpy in_.buf 0 (unread in_),
    drop-nothing in_.read_offset in_.written in_.buf,
  )

  -- Bytes that are read join the unread ones at their end.
  pub receive_bytes_lem :
      (cs : List ℕ)
      → InArray in_
      → in_.written + length cs < m
      → InArray (receive_bytes in_ cs) × (unread (receive_bytes in_ cs) ≡ unread in_ ++ cs)
  unfolding receive_bytes
  receive_bytes_lem cs v h = ground (
    arith,
    v,
    length-memcpy in_.buf in_.written cs,
    length-set (memcpy in_.buf in_.written cs) (in_.written + length cs) 0,
    take-memcpy in_.buf in_.written cs,
    take-set_above (memcpy in_.buf in_.written cs) (in_.written + length cs)
        (in_.written + length cs) 0,
    drop-append in_.read_offset (take in_.written in_.buf) cs,
    length-take in_.written in_.buf,
  )

module _ {m n : ℕ} (in_ : TBuffer m) (out : TBuffer n) (pipe f rest : List ℕ) where
  here :
      InArray in_
      → length f < 2 ^ 64
      → unread in_ ++ pipe ≡ frame f ++ rest
      → 8 ≤ length (unread in_)
      → read_le (take 8 (drop in_.read_offset in_.buf)) ≡ length f
  here v small stream h =
      ap read_le (
        sym (
          take-drop-take in_.read_offset 8 in_.written in_.buf
            (omega (arith, length-unread v, v.offset))))
      ∙ read_le-stream (unread in_) pipe f rest stream small h

  -- While the frame is not all there, nothing changes.
  pub try_extract_into-missing :
      InArray in_
      → length f < 2 ^ 63
      → unread in_ ++ pipe ≡ frame f ++ rest
      → length (unread in_) < 8 + length f
      → try_extract_into in_ out ≡ (false, in_, out)
  unfolding try_extract_into
  try_extract_into-missing v small stream h =
      ground (arith, here v (omega arith) stream, length-unread v, v)

  -- Once it is, it is taken off the front.
  pub record IsTaken (r : Bool × TBuffer m × TBuffer n) : Type 0 where
    pub found : r.0 ≡ true
    pub front : InArray r.1
    pub payload : InArray r.2
    pub left : unread r.1 ++ pipe ≡ rest
    pub delivered : unread r.2 ≡ f
    pub fresh : r.2.read_offset ≡ 0

  body :
      InArray in_
      → unread in_ ++ pipe ≡ frame f ++ rest
      → 8 + length f ≤ length (unread in_)
      → take (length f) (drop (in_.read_offset + 8) in_.buf) ≡ f
  body v stream h =
      sym (
        take-drop-take (in_.read_offset + 8) (length f) in_.written in_.buf
          (omega (arith, length-unread v, v.offset)))
      ∙ ap (take (length f)) (sym (drop-drop in_.read_offset 8 (take in_.written in_.buf)))
      ∙ take-stream (unread in_) pipe f rest stream h

  behind :
      unread in_ ++ pipe ≡ frame f ++ rest
      → 8 + length f ≤ length (unread in_)
      → drop (in_.read_offset + 8 + length f) (take in_.written in_.buf) ++ pipe ≡ rest
  behind stream h =
      ap (λ t. t ++ pipe)
        (let e : in_.read_offset + 8 + length f ≡ in_.read_offset + (8 + length f) = omega arith in
          ap (λ k. drop k (take in_.written in_.buf)) e
          ∙ sym (drop-drop in_.read_offset (8 + length f) (take in_.written in_.buf)))
      ∙ drop-stream (unread in_) pipe f rest stream h

  -- The payload of a frame that is all there is delivered, and the rest of the stream is left.
  pub try_extract_into-IsTaken :
      InArray in_
      → InArray out
      → length f ≤ n
      → unread in_ ++ pipe ≡ frame f ++ rest
      → 8 + length f ≤ length (unread in_)
      → IsTaken (try_extract_into in_ out)
  unfolding try_extract_into
  try_extract_into-IsTaken v w fits stream h =
      let len = here v (omega (arith, w.small)) stream (omega arith) in
      ground (
        arith,
        len,
        body v stream h,
        behind stream h,
        length-unread v,
        v,
        w,
        reset_lem out w,
        length-memcpy (reset out).buf 0 f,
        take-memcpy (reset out).buf 0 f,
      )
