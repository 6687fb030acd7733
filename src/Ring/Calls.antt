-- ===== src/Ring/Calls.antt =====
-- core/LMAXSequentialSharedPage.h, each call run to its end with no other thread in between.
pub mod Quiet
pub mod Queue
use etcs.Base.{
  ℕ, zero, suc, ◌+◌, ◌-◌, Bool, true, false, ◌||◌, ◌&&◌, bit_and, Option, none, some, ltb, leb,
  ◌==◌, if◌then◌else◌,
}
use etcs.Base.Memory.{add_size, sub_size}
use etcs.Buffer.{TBuffer}
use etcs.Ring.{
  Page, Slot, empty_slot, uint64_max, slot, store, clear_ready, store_header, store_payload,
  set_ready, gap_is_open, can_advance,
}

module _ (n : ℕ) where
  -- `allocate`: the count of slots has to be a positive power of two.
  unfoldable pub allocate : ℕ → ℕ → Option (Page n)
  unfolding empty_slot
  allocate reader_rid slot_count =
      if ltb 0 slot_count && bit_and slot_count (slot_count - 1) == 0
      then some (record {
        buffer = λ i. empty_slot n;
        slot_count = slot_count;
        index_mask = slot_count - 1;
        sequence = 0;
        publisher_cursor = uint64_max;
        consumer_cursor = 0;
        tombstoned = false;
        reader_rid = reader_rid;
      })
      else none

module _ {n : ℕ} where
  -- The walk of `tryAdvancePublisher`, in at most `fuel` rounds.
  unfoldable pub advance : ℕ → Page n → Page n
  advance zero p = p
  advance (suc fuel) p =
      let rest = advance fuel (record p { publisher_cursor = add_size p.publisher_cursor 1 }) in
      if can_advance p then rest else p

  unfoldable pub try_advance_publisher : Page n → ℕ → Page n
  try_advance_publisher p my_seq = if gap_is_open p my_seq then p else advance (suc p.slot_count) p

  -- `isFull`
  unfoldable pub is_full : Page n → Bool
  is_full p = leb p.slot_count (sub_size p.sequence p.consumer_cursor)

  -- What `write` does with the sequence number that it has claimed.
  unfoldable pub fill : Page n → ℕ → ℕ → TBuffer n → Page n
  unfolding clear_ready store_header store_payload set_ready
  fill p seq rid payload =
      store p seq (
        set_ready (store_payload (store_header (clear_ready (slot p seq)) seq rid payload) payload))

  unfoldable pub write : Page n → ℕ → TBuffer n → Option (ℕ × Page n)
  write p rid payload =
      if p.tombstoned
      then none
      else if is_full p
      then some (uint64_max, p)
      else let seq = p.sequence in
        let claimed = record p { sequence = add_size seq 1 } in
        some (seq, try_advance_publisher (fill claimed seq rid payload) seq)

  unfoldable pub acquire_read : Page n → ℕ → Option (TBuffer n)
  acquire_read p expected_seq =
      if ltb p.publisher_cursor expected_seq || p.publisher_cursor == uint64_max
      then none
      else if (slot p expected_seq).sequence == expected_seq
      then some (slot p expected_seq).payload
      else none

  unfoldable pub mark_consumed : Page n → ℕ → Page n
  unfolding clear_ready
  mark_consumed p seq = record (store p seq (clear_ready (slot p seq))) {
    consumer_cursor = add_size seq 1;
  }

  unfoldable pub frame_count : Page n → ℕ
  frame_count p = p.sequence

  unfoldable pub published_up_to : Page n → ℕ
  published_up_to p = p.publisher_cursor

  unfoldable pub tombstone : Page n → Page n
  tombstone p = record p { tombstoned = true }

  unfoldable pub reset : Page n → Option (Page n)
  reset p =
      if p.tombstoned
      then none
      else some (record p { sequence = 0; publisher_cursor = uint64_max; consumer_cursor = 0 })

-- `calculateBatchSize`
unfoldable pub calculate_batch_size : ℕ → ℕ → ℕ
calculate_batch_size expected available =
    if leb expected available then sub_size available expected else 0

-- `isSequenceAhead`: the difference as an `int64_t` is positive.
unfoldable pub is_sequence_ahead : ℕ → ℕ → Bool
is_sequence_ahead a b = ltb 0 (sub_size a b) && ltb (sub_size a b) 0x8000_0000_0000_0000
