-- ===== src/Mirror/Scratch.antt =====
-- core/MirrorBuffer.h, `emitWrapped` over the ring: the wrapped payload is copied into a pool of
-- buffers, one to a slot, and a pointer to it is written to the ring.
use etcs.Base.{
  ℕ, zero, suc, ◌+◌, ◌-◌, ◌*◌, Bool, true, false, List, [], ◌∷◌, Option, none, some, ◌==◌,
  if◌then◌else◌,
}
use etcs.Base.Maps.{update}
use etcs.Base.Memory.{add_size, memcpy}
use etcs.Buffer.{TBuffer, new}
use etcs.Ring.{Page, slot_index, uint64_max}
use etcs.Ring.Calls.{write}
use etcs.Mirror.Frames.{le_bytes}

-- The producer's half of a pair over the ring, with the pool that both halves share. A buffer of
-- the pool is known by its index, and `pool_base` and `pool_stride` give its address.
pub record RingHalf (k m : ℕ) : Type 0 where
  pub page : Page k
  pub pool : ℕ → TBuffer m
  pub pool_base : ℕ
  pub pool_stride : ℕ
  pub scratch_next_seq : ℕ
  pub writer_rid : ℕ

-- What a call came to: an `assert` failed, it waits for the next try, or it returned.
pub data Emitted : Type 0 where
  aborted waiting : Emitted
  returns : Bool → Emitted

module _ {k m : ℕ} where
  -- `wrap_scratch_next_seq_ & index_mask_`
  abbrev pub scratch_idx : RingHalf k m → ℕ
  scratch_idx h = slot_index h.page h.scratch_next_seq

  unfoldable pub pointer : RingHalf k m → TBuffer k
  unfolding new le_bytes
  pointer h = record (new k) {
    buf = memcpy (new k).buf 0 (le_bytes 8 (h.pool_base + scratch_idx h * h.pool_stride));
    written = 8;
  }

  unfoldable pub place_staged : RingHalf k m → TBuffer m → RingHalf k m
  place_staged h staged = record h { pool = update h.pool (scratch_idx h) staged }

  -- After a `write` that found the ring full: the end where the caller is told to stop, or the next
  -- try after the others have changed the page.
  unfoldable pub after_refusal :
      (RingHalf k m → Emitted × RingHalf k m)
      → RingHalf k m
      → Option (Option (Page k → Page k))
      → Emitted × RingHalf k m
  after_refusal next h none = (waiting, h)
  after_refusal next h (some none) = (returns false, h)
  after_refusal next h (some (some others)) = next (record h { page = others h.page })

  unfoldable pub after_write :
      (RingHalf k m → Emitted × RingHalf k m)
      → RingHalf k m
      → Option (ℕ × Page k)
      → Option (Option (Page k → Page k))
      → Emitted × RingHalf k m
  unfolding after_refusal
  after_write next h none pause = (aborted, h)
  after_write next h (some (seq, page)) pause =
      if seq == uint64_max then after_refusal next h pause else (
        returns true,
        record h { page = page; scratch_next_seq = add_size h.scratch_next_seq 1 },
      )

  -- The loop. An entry tells of one pause: `none` is a signal to stop, `some others` what the other
  -- threads did to the page.
  unfoldable pub emit_loop :
      List (Option (Page k → Page k)) → TBuffer k → RingHalf k m → Emitted × RingHalf k m
  unfolding after_write write
  emit_loop [] ptr h = after_write (λ h'. (waiting, h')) h (write h.page h.writer_rid ptr) none
  emit_loop (o ∷ os) ptr h =
      after_write (emit_loop os ptr) h (write h.page h.writer_rid ptr) (some o)

  unfoldable pub emit_wrapped :
      List (Option (Page k → Page k)) → RingHalf k m → TBuffer m → Emitted × RingHalf k m
  unfolding place_staged pointer emit_loop
  emit_wrapped os h staged = let h' = place_staged h staged in emit_loop os (pointer h') h'

  -- What the slots of the pool hold for sequence numbers that follow one another.
  abbrev pub scratches : RingHalf k m → ℕ → ℕ → List (TBuffer m)
  scratches h s zero = []
  scratches h s (suc c) = h.pool (slot_index h.page s) ∷ scratches h (s + 1) c

  -- The payloads that the consumer has not read.
  abbrev pub under_way : RingHalf k m → List (TBuffer m)
  under_way h = scratches h h.page.consumer_cursor (h.page.sequence - h.page.consumer_cursor)
