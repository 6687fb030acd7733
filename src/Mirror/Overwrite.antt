-- ===== src/Mirror/Overwrite.antt =====
-- core/MirrorBuffer.h, `emitWrapped` over the ring: with room in the ring the payload joins those
-- under way; with none it takes the place of the oldest before `write` is tried.
use native.Mathlib.Nat.{mod-eq-sub-mod}
use etcs.Base.{
  ℕ, zero, suc, ◌+◌, ◌-◌, ◌%◌, ◌<◌, ◌≤◌, ◌≡◌, refl, sym, ap, ap₂, subst, ◌∙◌, true, false, List, [],
  ◌∷◌, ◌++◌, Option, some, none, arith, ◌==◌, bit_and,
}
use etcs.Base.Maps.{update_self, update_ne}
use etcs.Base.Memory.{add_size}
use etcs.Buffer.{TBuffer}
use etcs.Ring.{Page, slot_index, uint64_max}
use etcs.Ring.Index.{slot_index_lem}
use etcs.Ring.Calls.{write, fill}
use etcs.Ring.Calls.Quiet.{IsQuiet, index_ne, write_full, write_quiet, written_page, write-IsQuiet}
use etcs.Mirror.Scratch.{
  RingHalf, Emitted, waiting, returns, scratch_idx, pointer, place_staged, after_write,
  after_refusal, emit_loop, emit_wrapped, scratches, under_way,
}

module _ {k m : ℕ} where
  -- A quiet ring with the next buffer of the pool in step with the next sequence number.
  pub record InStep (h : RingHalf k m) : Type 0 where
    pub quiet : IsQuiet h.page
    pub alive : h.page.tombstoned ≡ false
    pub paired : h.scratch_next_seq ≡ h.page.sequence

  scratches_ext :
      (h h' : RingHalf k m) (s c : ℕ)
      → h'.page.index_mask ≡ h.page.index_mask
      → ((t : ℕ) → s ≤ t → t < s + c → h'.pool (slot_index h.page t) ≡ h.pool (slot_index h.page t))
      → scratches h' s c ≡ scratches h s c
  scratches_ext h h' s zero same e = refl
  scratches_ext h h' s (suc c) same e =
      ap₂ ◌∷◌ (ap (λ mask. h'.pool (bit_and s mask)) same ∙ e s (omega arith) (omega arith))
        (scratches_ext h h' (s + 1) c same (λ t lo hi. e t (omega arith) (omega arith)))

  scratches_snoc :
      (h : RingHalf k m) (s c t : ℕ)
      → t ≡ s + c
      → scratches h s (suc c) ≡ scratches h s c ++ h.pool (slot_index h.page t) ∷ []
  scratches_snoc h s zero t e =
      let e' : s ≡ t = omega arith in ap (λ j. h.pool (slot_index h.page j) ∷ []) e'
  scratches_snoc h s (suc c) t e =
      ap (◌∷◌ (h.pool (slot_index h.page s))) (scratches_snoc h (s + 1) c t (omega arith))

  module _ (h : RingHalf k m) (staged : TBuffer m) (i : InStep h) where
    -- The other buffers of the pool are left alone.
    placed_ne :
        (t : ℕ)
        → t < h.page.sequence
        → h.page.sequence < t + h.page.slot_count
        → (place_staged h staged).pool (slot_index h.page t) ≡ h.pool (slot_index h.page t)
    unfolding place_staged
    placed_ne t below near =
        let e : slot_index h.page h.scratch_next_seq ≡ slot_index h.page h.page.sequence =
          ap (slot_index h.page) i.paired in
        update_ne h.pool (scratch_idx h) (slot_index h.page t) staged (λ same.
          index_ne {p = h.page} t h.page.sequence i.quiet.geometry below near (sym (sym e ∙ same)))

    placed_self : (place_staged h staged).pool (slot_index h.page h.page.sequence) ≡ staged
    unfolding place_staged
    placed_self =
        ap (λ s. (place_staged h staged).pool (slot_index h.page s)) (sym i.paired)
        ∙ update_self h.pool (scratch_idx h) staged

    wraps :
        h.page.sequence ≡ h.page.consumer_cursor + h.page.slot_count
        → slot_index h.page h.page.sequence ≡ slot_index h.page h.page.consumer_cursor
    wraps full =
        let back : h.page.sequence - h.page.slot_count ≡ h.page.consumer_cursor = omega arith in
        slot_index_lem i.quiet.geometry h.page.sequence
        ∙ mod-eq-sub-mod {n = h.page.sequence} {m = h.page.slot_count} (omega arith)
        ∙ ap (λ s. s % h.page.slot_count) back
        ∙ sym (slot_index_lem i.quiet.geometry h.page.consumer_cursor)

    refused :
        h.page.sequence ≡ h.page.consumer_cursor + h.page.slot_count
        → emit_wrapped (none ∷ []) h staged ≡ (returns false, place_staged h staged)
    unfolding emit_wrapped emit_loop after_write after_refusal place_staged
    refused full =
        ap
          (λ w.
            after_write (emit_loop [] (pointer (place_staged h staged))) (place_staged h staged) w
              (some none))
          (write_full h.page h.writer_rid (pointer (place_staged h staged)) i.quiet i.alive full)

    -- The half with the pointer in the ring.
    written : RingHalf k m
    written = record (place_staged h staged) {
      page = written_page h.page h.writer_rid (pointer (place_staged h staged));
      scratch_next_seq = add_size h.scratch_next_seq 1;
    }

    succeeds :
        (next : RingHalf k m → Emitted × RingHalf k m) (pause : Option (Option (Page k → Page k)))
        → h.page.sequence + 1 < uint64_max
        → h.page.sequence < h.page.consumer_cursor + h.page.slot_count
        → after_write next
            (place_staged h staged)
            (write h.page h.writer_rid (pointer (place_staged h staged)))
            pause
          ≡ (returns true, written)
    unfolding after_write written place_staged
    succeeds next pause small room =
        let e : (h.page.sequence == uint64_max) ≡ false = ground arith in
        ap (λ w. after_write next (place_staged h staged) w pause)
          (write_quiet h.writer_rid (pointer (place_staged h staged)) i.quiet i.alive small room)
        ∙ rw e refl

    accepted :
        (os : List (Option (Page k → Page k)))
        → h.page.sequence + 1 < uint64_max
        → h.page.sequence < h.page.consumer_cursor + h.page.slot_count
        → emit_wrapped os h staged ≡ (returns true, written)
    unfolding emit_wrapped emit_loop place_staged
    accepted [] small room = succeeds (λ h'. (waiting, h')) none small room
    accepted (o ∷ os) small room =
        succeeds (emit_loop os (pointer (place_staged h staged))) (some o) small room

    written_lem :
        h.page.sequence + 1 < uint64_max
        → h.page.sequence < h.page.consumer_cursor + h.page.slot_count
        → InStep written × (under_way written ≡ under_way h ++ staged ∷ [])
    unfolding written written_page fill place_staged
    written_lem small room = (
      record {
        quiet = write-IsQuiet h.writer_rid (pointer (place_staged h staged)) i.quiet small room;
        alive = i.alive;
        paired = omega (arith, i.paired);
      },
      ap (scratches written start) length_eq
          ∙ scratches_snoc written start (h.page.sequence - start) h.page.sequence
              (omega (arith, i.quiet.behind))
          ∙ ap₂ (λ xs x. xs ++ x ∷ [])
              (scratches_ext h written start (h.page.sequence - start) refl
                (λ t lo hi. placed_ne t (omega arith) (omega arith)))
              placed_self,
    )
      where
        start : ℕ
        start = h.page.consumer_cursor

        length_eq : h.page.sequence + 1 - start ≡ suc (h.page.sequence - start)
        length_eq = omega (arith, i.quiet.behind)

    -- With room in the ring the first try succeeds, and the payload joins those under way at the end.
    pub emit_wrapped-under_way :
        (os : List (Option (Page k → Page k)))
        → h.page.sequence + 1 < uint64_max
        → h.page.sequence < h.page.consumer_cursor + h.page.slot_count
        → ((emit_wrapped os h staged).0 ≡ returns true)
          × InStep (emit_wrapped os h staged).1
          × (under_way (emit_wrapped os h staged).1 ≡ under_way h ++ staged ∷ [])
    emit_wrapped-under_way os small room =
        subst
          (λ r. (r.0 ≡ returns true) × InStep r.1 × (under_way r.1 ≡ under_way h ++ staged ∷ []))
          (sym (accepted os small room)) (let w = written_lem small room in (refl, w.0, w.1))

    -- Where the ring is full and the caller is told to stop, `false` is returned, and the payload
    -- stands where the oldest unread one was.
    pub emit_wrapped-overwrites :
        (d : ℕ)
        → h.page.slot_count ≡ suc d
        → h.page.sequence ≡ h.page.consumer_cursor + h.page.slot_count
        → ((emit_wrapped (none ∷ []) h staged).0 ≡ returns false)
          × (under_way h
              ≡ h.pool (slot_index h.page h.page.consumer_cursor)
                ∷ scratches h (h.page.consumer_cursor + 1) d)
          × (under_way (emit_wrapped (none ∷ []) h staged).1
              ≡ staged ∷ scratches h (h.page.consumer_cursor + 1) d)
    unfolding place_staged
    emit_wrapped-overwrites d count full =
        let length_eq : h.page.sequence - h.page.consumer_cursor ≡ suc d = omega arith in
        let start = h.page.consumer_cursor in
        (
          ap (λ r. r.0) (refused full),
          ap (scratches h start) length_eq,
          ap (λ r. under_way r.1) (refused full)
              ∙ ap (scratches (place_staged h staged) start) length_eq
              ∙ ap₂ ◌∷◌ (ap (place_staged h staged).pool (sym (wraps full)) ∙ placed_self) (
                  scratches_ext h (place_staged h staged) (start + 1) d refl
                    (λ t lo hi. placed_ne t (omega arith) (omega arith))),
        )
