-- ===== src/Mirror/Chunks.antt =====
-- core/MirrorBuffer.h, the rounds of the loop of `fillAndCopyInto`: each chunk that the pipe gives
-- leaves the stream as it is.
use mathlib.Core.List.{append_assoc}
use etcs.Base.{
  ℕ, suc, ◌+◌, ◌-◌, ◌^◌, ◌<◌, ◌≤◌, ◌≡◌, refl, sym, ap, ◌∙◌, true, false, List, [], ◌∷◌, ◌++◌, none,
  some, leb, ◌==◌, length, take, drop, arith, min, length-append, length-take, take-append-drop,
  Bool-cases, inl, inr, ◌⊎◌,
}
use etcs.Base.Memory.{sub_size}
use etcs.Buffer.TokenBounds.{InArray}
use etcs.Buffer.Tokens.{unread}
use etcs.Mirror.{ReadOutcome, gives, bytes, read_pipe, read_some}
use etcs.Mirror.Frames.{frame, length-frame}
use etcs.Mirror.Pipe.{
  compact, receive_bytes, Reader, extract, after_read, compacted, fill_loop, space,
}
use etcs.Mirror.Receiving.{
  compact_lem, receive_bytes_lem, try_extract_into-missing, try_extract_into-IsTaken,
}

read_pipe-gives :
    (pipe : List ℕ) (space k : ℕ)
    → 0 < length pipe
    → read_pipe pipe space (gives k)
      ≡ bytes (take (min (suc k) space) pipe) (drop (min (suc k) space) pipe)
unfolding read_pipe read_some
read_pipe-gives [] space k h = absurd (omega arith)
read_pipe-gives (c ∷ cs) space k h = refl

module _ {m n : ℕ} where
  -- The bytes that are still to be delivered.
  abbrev pub stream : Reader m n → List ℕ
  stream r = unread r.in_ ++ r.pipe

  -- A reader whose stream begins with a frame that fits the buffers.
  pub record Awaits (f rest : List ℕ) (r : Reader m n) : Type 0 where
    pub front : InArray r.in_
    pub room : InArray r.out
    pub opened : r.read_fd ≡ true
    pub coming : stream r ≡ frame f ++ rest

  -- A reader that has delivered it.
  pub record Delivers (f rest : List ℕ) (r : Reader m n) : Type 0 where
    pub front : InArray r.in_
    pub room : InArray r.out
    pub opened : r.read_fd ≡ true
    pub left : stream r ≡ rest
    pub delivered : unread r.out ≡ f
    pub fresh : r.out.read_offset ≡ 0

  -- The bytes of one call join those at hand.
  pub arrived : Reader m n → ℕ → Reader m n
  arrived r k =
      let j = min (suc k) (space r.in_) in
      record r { in_ = receive_bytes r.in_ (take j r.pipe); pipe = drop j r.pipe }

  -- A reader that has not got the whole frame.
  pub record IsShort (f rest : List ℕ) (r : Reader m n) : Type 0 where
    pub awaits : Awaits f rest r
    pub short : length (unread r.in_) < 8 + length f

  module _ (f rest : List ℕ) (fits : length f ≤ n) (whole : 9 + length f ≤ m) where
    -- `tryExtractInto` delivers the frame, or leaves all as it is with less than the frame at hand.
    pub extract_lem :
        (r : Reader m n)
        → Awaits f rest r
        → (((extract r).0 ≡ true) × Delivers f rest (extract r).1)
          ⊎ (((extract r).0 ≡ false) × ((extract r).1 ≡ r) × (length (unread r.in_) < 8 + length f))
    unfolding extract
    extract_lem r a = elim (Bool-cases (leb (8 + length f) (length (unread r.in_)))) [
      | inl e ↦
          let t =
            try_extract_into-IsTaken r.in_ r.out r.pipe f rest a.front a.room fits a.coming
              (ground (arith, e)) in
          inl (
            t.found,
            record {
              front = t.front;
              room = t.payload;
              opened = a.opened;
              left = t.left;
              delivered = t.delivered;
              fresh = t.fresh;
            },
          )
      | inr e ↦
          let short : length (unread r.in_) < 8 + length f = ground (arith, e) in
          let t =
            try_extract_into-missing r.in_ r.out r.pipe f rest a.front (omega (arith, a.room.small))
              a.coming short in
          inr (ap (λ t. t.0) t, ap (λ t. record r { in_ = t.1; out = t.2 }) t, short)
    ]

    pub compacted_lem :
        (r : Reader m n)
        → IsShort f rest r
        → IsShort f rest (compacted r)
          × ((compacted r).in_.written ≡ length (unread (compacted r).in_))
          × (unread (compacted r).in_ ≡ unread r.in_)
          × ((space (compacted r).in_ == 0) ≡ false)
    unfolding compacted
    compacted_lem r s =
        let c = compact_lem r.in_ s.awaits.front in
        let a = s.awaits in
        (
          record {
            awaits = record {
              front = c.0;
              room = a.room;
              opened = a.opened;
              coming = ap (λ u. u ++ r.pipe) c.1 ∙ a.coming;
            };
            short = rw c.1 s.short;
          },
          c.2 ∙ sym (ap length c.1),
          c.1,
          positive (compact r.in_).written (omega (arith, c.2, s.short)) a.front.small,
        )
      where
        positive : (w : ℕ) → w + 1 < m → m < 2 ^ 63 → (sub_size (sub_size m 1) w == 0) ≡ false
        positive w h k = ground arith

    -- The loop without a call to make, and one round of it.
    pub fill_loop-waits :
        (r : Reader m n) → IsShort f rest r → fill_loop [] r ≡ (none, compacted r, [])
    unfolding fill_loop
    fill_loop-waits r s = rw (compacted_lem r s).3 refl

    pub fill_loop-round :
        (o : ReadOutcome) (os : List ReadOutcome) (r : Reader m n)
        → IsShort f rest r
        → fill_loop (o ∷ os) r
          ≡ after_read
              (fill_loop os)
              os
              (compacted r)
              (read_pipe (compacted r).pipe (space (compacted r).in_) o)
    unfolding fill_loop
    fill_loop-round o os r s = rw (compacted_lem r s).3 refl

    arrived_lem :
        (r : Reader m n) (k : ℕ)
        → Awaits f rest r
        → length (unread r.in_) < 8 + length f
        → r.in_.written ≡ length (unread r.in_)
        → Awaits f rest (arrived r k)
          × (length (unread r.in_) < length (unread (arrived r k).in_))
          × (read_pipe r.pipe (space r.in_) (gives k)
              ≡ bytes
                  (take (min (suc k) (space r.in_)) r.pipe)
                  (drop (min (suc k) (space r.in_)) r.pipe))
    unfolding arrived
    arrived_lem r k a short packed = (
      record {
        front = got.0;
        room = a.room;
        opened = a.opened;
        coming =
            ap (λ u. u ++ drop j r.pipe) got.1
            ∙ append_assoc (unread r.in_) (take j r.pipe) (drop j r.pipe)
            ∙ ap (λ t. unread r.in_ ++ t) (take-append-drop j r.pipe)
            ∙ a.coming;
      },
      omega (
        arith,
        ap length got.1,
        length-append (unread r.in_) (take j r.pipe),
        length-take j r.pipe,
        more,
        some_space.0,
      ),
      read_pipe-gives r.pipe (space r.in_) k more,
    )
      where
        j : ℕ
        j = min (suc k) (space r.in_)

        spaces : (w : ℕ) → w + 1 < m → m < 2 ^ 63 → sub_size (sub_size m 1) w ≡ m - 1 - w
        spaces w h g = ground arith

        some_space : (1 ≤ space r.in_) × (r.in_.written + length (take j r.pipe) < m)
        some_space = omega (
          arith,
          spaces r.in_.written (omega (arith, packed, short)) a.front.small,
          length-take j r.pipe,
          packed,
          short,
        )

        got :
            InArray (receive_bytes r.in_ (take j r.pipe))
            × (unread (receive_bytes r.in_ (take j r.pipe)) ≡ unread r.in_ ++ take j r.pipe)
        got = receive_bytes_lem r.in_ (take j r.pipe) a.front some_space.1

        more : 0 < length r.pipe
        more = omega (
          arith,
          short,
          ap length a.coming,
          length-append (unread r.in_) r.pipe,
          length-append (frame f) rest,
          length-frame f,
        )

    -- What a call that gives bytes comes to.
    abbrev pub Goes : ℕ → List ReadOutcome → Reader m n → Type 0
    Goes k os r =
        ((fill_loop (gives k ∷ os) r ≡ (some true, (extract (arrived (compacted r) k)).1, os))
          × Delivers f rest (extract (arrived (compacted r) k)).1)
        ⊎ ((fill_loop (gives k ∷ os) r ≡ fill_loop os (arrived (compacted r) k))
            × IsShort f rest (arrived (compacted r) k)
            × (length (unread r.in_) < length (unread (arrived (compacted r) k).in_)))

    pub fill_loop-gives :
        (k : ℕ) (os : List ReadOutcome) (r : Reader m n) → IsShort f rest r → Goes k os r
    unfolding after_read arrived
    fill_loop-gives k os r s =
        let c = compacted_lem r s in
        let g = arrived_lem (compacted r) k c.0.awaits c.0.short c.1 in
        let step =
          fill_loop-round (gives k) os r s ∙ ap (after_read (fill_loop os) os (compacted r)) g.2 in
        elim (extract_lem (arrived (compacted r) k) g.0) [
          | inl e ↦ inl (step ∙ rw e.0 refl, e.1)
          | inr e ↦ inr (
            step ∙ rw (e.0, e.1) refl,
            record { awaits = g.0; short = e.2 },
            omega (arith, g.1, ap length c.2),
          )
        ]
