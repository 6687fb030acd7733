-- ===== src/Ring/Calls/Queue.antt =====
-- A quiet page is a bounded queue of what was written and not yet consumed, oldest first.
use etcs.Base.{
  ℕ, zero, suc, ◌+◌, ◌-◌, ◌<◌, ◌≤◌, ◌≡◌, refl, sym, ap, ap₂, ◌∙◌, List, [], ◌∷◌, ◌++◌, length, some,
  none, arith,
}
use etcs.Base.Maps.{update_all}
use etcs.Buffer.{TBuffer}
use etcs.Buffer.Bounds.{IsValid}
use etcs.Buffer.Contents.{contents}
use etcs.Ring.{
  Page, Slot, slot, slot_index, uint64_max, store_payload, store_header, set_ready, clear_ready,
}
use etcs.Ring.Payload.{copy_payload_lem}
use etcs.Ring.Calls.{fill, mark_consumed, acquire_read}
use etcs.Ring.Calls.Quiet.{
  IsQuiet, written_page, written_page-slot, written_page-slot_old, fill-slot_self,
  mark_consumed-slot_ne, index_ne,
}

-- A writer's identity and the bytes that it sent.
abbrev pub Entry : Type 0
Entry = ℕ × List ℕ

module _ {n : ℕ} where
  abbrev pub entry : Page n → ℕ → Entry
  entry p s = ((slot p s).writer_rid, contents (slot p s).payload)

  abbrev pub window : Page n → ℕ → ℕ → List Entry
  window p s zero = []
  window p s (suc m) = entry p s ∷ window p (s + 1) m

  abbrev pub queue : Page n → List Entry
  queue p = window p p.consumer_cursor (p.sequence - p.consumer_cursor)

  length-window : (p : Page n) (s m : ℕ) → length (window p s m) ≡ m
  length-window p s zero = refl
  length-window p s (suc m) = ap suc (length-window p (s + 1) m)

  pub length-queue : (p : Page n) → length (queue p) ≡ p.sequence - p.consumer_cursor
  length-queue p = length-window p p.consumer_cursor (p.sequence - p.consumer_cursor)

  -- Every slot holds a buffer of the right size, valid and so readable.
  pub record IsSized (p : Page n) : Type 0 where
    pub buffers : (i : ℕ) → IsValid (p.buffer i).payload

  window_ext :
      (p r : Page n) (s m : ℕ)
      → ((t : ℕ) → s ≤ t → t < s + m → slot r t ≡ slot p t)
      → window r s m ≡ window p s m
  window_ext p r s zero h = refl
  window_ext p r s (suc m) h =
      ap₂ ◌∷◌
        (ap (λ (t : Slot n). (t.writer_rid, contents t.payload)) (h s (omega arith) (omega arith)))
        (window_ext p r (s + 1) m (λ t lo hi. h t (omega arith) (omega arith)))

  window_snoc :
      (p : Page n) (s m t : ℕ) → t ≡ s + m → window p s (suc m) ≡ window p s m ++ entry p t ∷ []
  window_snoc p s zero t e = let e' : s ≡ t = omega arith in ap (λ k. entry p k ∷ []) e'
  window_snoc p s (suc m) t e = ap (◌∷◌ (entry p s)) (window_snoc p (s + 1) m t (omega arith))

  entry-fill :
      (p : Page n) (seq rid : ℕ) {payload : TBuffer n}
      → IsSized p
      → IsValid payload
      → entry (fill p seq rid payload) seq ≡ (rid, contents payload)
  unfolding store_header store_payload set_ready clear_ready
  entry-fill p seq rid {payload} z v =
      ap (λ (t : Slot n). (t.writer_rid, contents t.payload)) (fill-slot_self p seq rid payload)
      ∙ ap (λ bs. (rid, bs))
          (copy_payload_lem (slot p seq).payload {src = payload} (z.buffers (slot_index p seq)).size
            v).1

  pub fields :
      (p : Page n) (rid : ℕ) (payload : TBuffer n)
      → ((written_page p rid payload).consumer_cursor ≡ p.consumer_cursor)
        × ((written_page p rid payload).sequence ≡ p.sequence + 1)
        × ((written_page p rid payload).tombstoned ≡ p.tombstoned)
        × ((written_page p rid payload).slot_count ≡ p.slot_count)
  unfolding written_page fill
  fields p rid payload = (refl, refl, refl, refl)

  -- A write to a page with room goes to the end of the queue.
  pub queue-written_page :
      {p : Page n} (rid : ℕ) {payload : TBuffer n}
      → IsQuiet p
      → IsSized p
      → IsValid payload
      → p.sequence < p.consumer_cursor + p.slot_count
      → queue (written_page p rid payload) ≡ queue p ++ (rid, contents payload) ∷ []
  queue-written_page {p} rid {payload} q z v room =
      ap₂ (window r) (fields p rid payload).0 length_eq
      ∙ window_snoc r p.consumer_cursor (p.sequence - p.consumer_cursor) p.sequence (omega arith)
      ∙ ap₂ (λ xs e. xs ++ e ∷ []) old new
    where
      r : Page n
      r = written_page p rid payload

      length_eq : r.sequence - r.consumer_cursor ≡ suc (p.sequence - p.consumer_cursor)
      length_eq = omega (arith, fields p rid payload, q.behind)

      old :
          window r p.consumer_cursor (p.sequence - p.consumer_cursor)
          ≡ window p p.consumer_cursor (p.sequence - p.consumer_cursor)
      old =
          window_ext p r p.consumer_cursor (p.sequence - p.consumer_cursor)
            (λ t lo hi. written_page-slot_old rid t payload q lo (omega arith) room)

      new : entry r p.sequence ≡ (rid, contents payload)
      new =
          ap (λ (t : Slot n). (t.writer_rid, contents t.payload))
            (written_page-slot p rid p.sequence payload)
          ∙ entry-fill (record p { sequence = p.sequence + 1 }) p.sequence rid
              (record { buffers = z.buffers }) v

  pub written_page-IsSized :
      {p : Page n} (rid : ℕ) {payload : TBuffer n}
      → IsSized p
      → IsValid payload
      → IsSized (written_page p rid payload)
  unfolding written_page fill store_header store_payload set_ready clear_ready
  written_page-IsSized {p} rid {payload} z v =
      let new =
        copy_payload_lem (slot p p.sequence).payload {src = payload}
          (z.buffers (slot_index p p.sequence)).size v in
      record {
        buffers =
            update_all (λ (s : Slot n). IsValid s.payload) p.buffer (slot_index p p.sequence) _
              new.0 z.buffers;
      }

  pub mark_consumed-IsSized : {p : Page n} (s : ℕ) → IsSized p → IsSized (mark_consumed p s)
  unfolding mark_consumed clear_ready
  mark_consumed-IsSized {p} s z = record {
    buffers =
        update_all (λ (s : Slot n). IsValid s.payload) p.buffer (slot_index p s) _
          (z.buffers (slot_index p s)) z.buffers;
  }

  pub mark_consumed_fields :
      (p : Page n)
      → p.consumer_cursor < uint64_max
      → ((mark_consumed p p.consumer_cursor).consumer_cursor ≡ p.consumer_cursor + 1)
        × ((mark_consumed p p.consumer_cursor).sequence ≡ p.sequence)
        × ((mark_consumed p p.consumer_cursor).tombstoned ≡ p.tombstoned)
        × ((mark_consumed p p.consumer_cursor).slot_count ≡ p.slot_count)
  unfolding mark_consumed
  mark_consumed_fields p h = (omega arith, refl, refl, refl)

  -- Consuming takes the front off.
  pub queue-mark_consumed :
      {p : Page n}
      → IsQuiet p
      → p.consumer_cursor < p.sequence
      → queue p ≡ entry p p.consumer_cursor ∷ queue (mark_consumed p p.consumer_cursor)
  queue-mark_consumed {p} q more =
      ap (window p p.consumer_cursor) length_eq ∙ ap (◌∷◌ (entry p p.consumer_cursor)) (sym rest)
    where
      r : Page n
      r = mark_consumed p p.consumer_cursor

      length_eq : p.sequence - p.consumer_cursor ≡ suc (p.sequence - (p.consumer_cursor + 1))
      length_eq = omega (arith, more)

      cursor : (r.consumer_cursor ≡ p.consumer_cursor + 1) × (r.sequence ≡ p.sequence)
      cursor = let f = mark_consumed_fields p (omega (arith, more, q.small)) in (f.0, f.1)

      rest : queue r ≡ window p (p.consumer_cursor + 1) (p.sequence - (p.consumer_cursor + 1))
      rest =
          ap₂ (λ c m. window r c (m - c)) cursor.0 cursor.1
          ∙ window_ext p r (p.consumer_cursor + 1) (p.sequence - (p.consumer_cursor + 1))
              (λ t lo hi.
                let above : p.consumer_cursor < t = omega arith in
                mark_consumed-slot_ne p p.consumer_cursor t (
                  index_ne {p = p} p.consumer_cursor t q.geometry above
                    (omega (arith, q.fits, q.behind))))

  -- The slot at the consumer's cursor can be read exactly if something is queued.
  pub acquire_read_more :
      {p : Page n}
      → IsQuiet p
      → p.consumer_cursor < p.sequence
      → acquire_read p p.consumer_cursor ≡ some (slot p p.consumer_cursor).payload
  unfolding acquire_read
  acquire_read_more {p} q more = ground (arith, q.written p.consumer_cursor)

  pub acquire_read_end :
      {p : Page n}
      → IsQuiet p
      → p.consumer_cursor ≡ p.sequence
      → acquire_read p p.consumer_cursor ≡ none
  unfolding acquire_read
  acquire_read_end {p} q e = ground arith
