-- ===== src/Mirror/Unwrapped.antt =====
-- core/MirrorBuffer.h, a payload that went through the wrappers of a chain comes back from them.
use etcs.Base.{
  ℕ, ◌+◌, ◌<◌, ◌≤◌, ◌≡◌, ◌^◌, refl, sym, subst, ap, ◌∙◌, Bool, true, false, not, List, [], ◌∷◌,
  ◌++◌, Option, none, some, length, drop, ltb, arith, inl, inr, length-take,
}
use etcs.Buffer.{TBuffer, new, reset, write_raw}
use etcs.Buffer.Bounds.{IsValid, new-IsValid, reset-IsValid}
use etcs.Buffer.Contents.{contents, contents-write_raw}
use etcs.Buffer.TokenBounds.{InArray}
use etcs.Buffer.Tokens.{unread}
use etcs.Mirror.{ReadOutcome}
use etcs.Buffer.RoundTrip.{in_array}
use etcs.Mirror.Frames.{frame}
use etcs.Mirror.Pipe.{Reader, fill_and_copy_into}
use etcs.Mirror.Chunks.{Awaits, Delivers, stream}
use etcs.Mirror.Delivery.{
  IsFaithful, delivered, patient, chunks, fill_and_copy_into-IsFaithful,
  fill_and_copy_into-delivered,
}
use etcs.Mirror.Wraps.{
  IWireWrapper, WrapChain, direction_allows, wrap_all, unwrap_all, stage_copy, unwrap_into,
  after_fill, read_raw_pipe, read_through, out_of_slot, into_slot,
}

-- What a wrapper promises: its unwrapping reads the payload alone and undoes its wrapping.
pub record IsInverse {m : ℕ} (w : IWireWrapper m) : Type 0 where
  pub reads :
      (b c : TBuffer m) → contents b ≡ contents c → contents (w.unwrap b) ≡ contents (w.unwrap c)
  pub keeps : (b : TBuffer m) → InArray b → InArray (w.unwrap b)
  pub undoes : (b : TBuffer m) → contents (w.unwrap (w.wrap b)) ≡ contents b

module _ {m : ℕ} where
  abbrev pub AllInverse : List (IWireWrapper m) → Type 0
  AllInverse [] = Unit {0}
  AllInverse (w ∷ ws) = IsInverse w × AllInverse ws

  unwrap_all-wrap_all :
      (ws : List (IWireWrapper m)) (b frame : TBuffer m)
      → AllInverse ws
      → contents frame ≡ contents (wrap_all ws b)
      → contents (unwrap_all ws frame) ≡ contents b
  unfolding unwrap_all wrap_all
  unwrap_all-wrap_all [] b frame a e = e
  unwrap_all-wrap_all (w ∷ ws) b frame a e =
      a.0.reads (unwrap_all ws frame) (w.wrap b) (unwrap_all-wrap_all ws (w.wrap b) frame a.1 e)
      ∙ a.0.undoes b

  contents-stage_copy :
      {n : ℕ} (slot : TBuffer n)
      → InArray slot
      → n ≤ m
      → 0 < m
      → m < 2 ^ 63
      → contents (stage_copy {m = m} slot) ≡ contents slot
  unfolding stage_copy new
  contents-stage_copy slot v h pos small = ground (
    arith,
    contents-write_raw {b = new m} (contents slot) (new-IsValid pos small),
    length-take slot.written slot.buf,
    v,
  )

  unwrap_all-InArray :
      (ws : List (IWireWrapper m)) (b : TBuffer m)
      → AllInverse ws
      → InArray b
      → InArray (unwrap_all ws b)
  unfolding unwrap_all
  unwrap_all-InArray [] b a v = v
  unwrap_all-InArray (w ∷ ws) b a v = a.0.keeps (unwrap_all ws b) (unwrap_all-InArray ws b a.1 v)

module _ {n : ℕ} where
  rewritten :
      (slot : TBuffer n) (bytes : List ℕ)
      → IsValid slot
      → length bytes ≤ n
      → contents (write_raw (reset slot) bytes).1 ≡ bytes
  unfolding reset
  rewritten slot bytes v h =
      ground (arith, contents-write_raw {b = reset slot} bytes (reset-IsValid v), v)

module _ {m n : ℕ} where
  unwrap_into_lem :
      (ws : List (IWireWrapper m)) (frame : TBuffer m) (slot original : TBuffer n)
      → AllInverse ws
      → InArray frame
      → IsValid slot
      → InArray original
      → contents (unwrap_all ws frame) ≡ contents original
      → ((unwrap_into ws frame slot).0 ≡ true)
        × (contents (unwrap_into ws frame slot).1 ≡ contents original)
  unfolding unwrap_into
  unwrap_into_lem ws frame slot original a v s o e =
      let u = unwrap_all-InArray ws frame a v in
      let size = length-take (unwrap_all ws frame).written (unwrap_all ws frame).buf in
      let size' = length-take original.written original.buf in
      let fits : length (contents (unwrap_all ws frame)) ≤ n =
        omega (arith, size', o.extent, ap length e) in
      let few : ltb n (unwrap_all ws frame).written ≡ false =
        ground (arith, size, u.size, u.extent, fits) in
      rw few (refl, rewritten slot (contents (unwrap_all ws frame)) s fits ∙ e)

  abbrev pub Unwraps : TBuffer n → List ℕ → Option Bool × TBuffer n × Reader m m → Type 0
  Unwraps original rest (result, slot, r) =
      (result ≡ some true) × (contents slot ≡ contents original) × (stream r ≡ rest)

  module _ (ws : List (IWireWrapper m)) (slot original : TBuffer n) (rest : List ℕ)
      (a : AllInverse ws) (s : IsValid slot) (o : InArray original) (fits : n ≤ m)
      (pos : 0 < m) where
    delivered_lem :
        (r : Reader m m) (os : List ReadOutcome)
        → Delivers (contents (wrap_all ws (stage_copy original))) rest r
        → Unwraps original rest (after_fill ws slot (some true, r, os))
    unfolding after_fill
    delivered_lem r os d =
        let same : contents r.out ≡ contents (wrap_all ws (stage_copy original)) =
          ap (λ k. drop k (contents r.out)) (sym d.fresh) ∙ d.delivered in
        let back =
          unwrap_all-wrap_all ws (stage_copy original) r.out a same
          ∙ contents-stage_copy original o fits pos d.room.small in
        let u = unwrap_into_lem ws r.out slot original a d.room s o back in
        (ap some u.0, u.1, d.left)

    after_fill_lem :
        (q : Option Bool × Reader m m × List ReadOutcome)
        → IsFaithful (contents (wrap_all ws (stage_copy original))) rest q
        → delivered q.0 ≡ true
        → Unwraps original rest (after_fill ws slot q)
    after_fill_lem (some true, r, os) (inl (e, d)) h = delivered_lem r os d
    after_fill_lem (some true, r, os) (inr (e, d)) h = absurd (cc)
    after_fill_lem (some false, r, os) q h = absurd (cc)
    after_fill_lem (none, r, os) q h = absurd (cc)

  allowed :
      (os : List ReadOutcome) (c : WrapChain m) (r : Reader m m) (slot : TBuffer n)
      → c.is_producer ≡ false
      → read_raw_pipe os c r slot ≡ read_through os true c.wrap_chain r slot
  unfolding read_raw_pipe direction_allows
  allowed os c r slot half = ap (λ (b : Bool). read_through os (not b) c.wrap_chain r slot) half

  module _ (slot original : TBuffer n) (rest : List ℕ) (s : IsValid slot) (o : InArray original)
      (fits : n ≤ m) (pos : 0 < m) where
    out_of_slot_lem :
        (r : Reader m m) (q : Option Bool × Reader m n × List ReadOutcome)
        → IsFaithful (contents original) rest q
        → delivered q.0 ≡ true
        → Unwraps original rest (out_of_slot r q)
    out_of_slot_lem r (some true, r', os) (inl (e, d)) h =
        let same : contents r'.out ≡ contents original =
          ap (λ k. drop k (contents r'.out)) (sym d.fresh) ∙ d.delivered in
        (refl, same, d.left)
    out_of_slot_lem r (some true, r', os) (inr (e, d)) h = absurd (cc)
    out_of_slot_lem r (some false, r', os) q h = absurd (cc)
    out_of_slot_lem r (none, r', os) q h = absurd (cc)

    read_through_lem :
        (os : List ReadOutcome) (ws : List (IWireWrapper m)) (r : Reader m m)
        → AllInverse ws
        → Awaits (contents (wrap_all ws (stage_copy original))) rest (record r { out = new m })
        → 9 + length (contents (wrap_all ws (stage_copy original))) ≤ m
        → patient os ≡ true
        → 8 + length (contents (wrap_all ws (stage_copy original)))
          ≤ length (unread r.in_) + chunks os
        → Unwraps original rest (read_through os true ws r slot)
    unfolding read_through wrap_all
    read_through_lem os [] r a v whole calm many =
        let f = contents original in
        let size = ap length (contents-stage_copy {m = m} original o fits pos v.room.small) in
        let start : Awaits f rest (into_slot r slot) = record {
          front = v.front;
          room = in_array s;
          opened = v.opened;
          coming =
              v.coming
              ∙ ap (λ t. frame t ++ rest)
                  (contents-stage_copy {m = m} original o fits pos v.room.small);
        } in
        let room : length f ≤ n =
          omega (arith, length-take original.written original.buf, o.extent, o.size) in
        let enough : 9 + length f ≤ m = omega (arith, whole, size) in
        out_of_slot_lem r (fill_and_copy_into os (into_slot r slot))
          (fill_and_copy_into-IsFaithful f rest room enough os (into_slot r slot) start)
          (fill_and_copy_into-delivered f rest room enough os (into_slot r slot) start calm
            (omega (arith, many, size)))
    read_through_lem os (w ∷ ws) r a v whole calm many =
        let f = contents (wrap_all (w ∷ ws) (stage_copy original)) in
        let start = record r { out = new m } in
        let room : length f ≤ m = omega arith in
        after_fill_lem (w ∷ ws) slot original rest a s o fits pos (fill_and_copy_into os start)
          (fill_and_copy_into-IsFaithful f rest room whole os start v)
          (fill_and_copy_into-delivered f rest room whole os start v calm many)

  -- A payload that the writer's chain has wrapped, and that stands first on the wire, comes back as
  -- it was: `readRaw` on the consumer's half returns `true` with its bytes in the caller's slot, and
  -- the rest of the stream is left; where each wrapper undoes itself, reads nothing but the payload
  -- and stays in its buffer, where the wrapped frame fits the transport, and where the operating
  -- system gives enough chunks and neither fails nor stops.
  pub read_raw_pipe-wrapped :
      (os : List ReadOutcome) (c : WrapChain m) (r : Reader m m) (slot original : TBuffer n)
      (rest : List ℕ)
      → c.is_producer ≡ false
      → AllInverse c.wrap_chain
      → IsValid slot
      → InArray original
      → n ≤ m
      → Awaits
          (contents (wrap_all c.wrap_chain (stage_copy original)))
          rest
          (record r { out = new m })
      → 9 + length (contents (wrap_all c.wrap_chain (stage_copy original))) ≤ m
      → patient os ≡ true
      → 8 + length (contents (wrap_all c.wrap_chain (stage_copy original)))
        ≤ length (unread r.in_) + chunks os
      → Unwraps original rest (read_raw_pipe os c r slot)
  read_raw_pipe-wrapped os c r slot original rest half a s o fits v whole calm many =
      subst (Unwraps original rest) (sym (allowed os c r slot half)) (
        read_through_lem slot original rest s o fits (omega arith) os c.wrap_chain r a v whole calm
          many)
