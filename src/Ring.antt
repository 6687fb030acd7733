-- ===== src/Ring.antt =====
-- core/LMAXSequentialSharedPage.h, the ring of slots that many producers write and one consumer
-- reads. A slot is a frame and its buffer; the slot region is a function of the slot's index. An
-- operation whose `assert` fails gives `none`.
-- Slots here; the calls run to their end are in Calls.
pub mod Calls
pub mod Index
pub mod Payload
pub mod Waiting
mod Tests
use etcs.Base.{
  ℕ, ◌+◌, ◌-◌, ◌≡◌, Bool, true, false, ◌||◌, ◌&&◌, not, List, set, take, ltb, leb, ◌==◌,
  if◌then◌else◌, bit_and,
}
use etcs.Base.Maps.{update}
use etcs.Base.Memory.{add_size, sub_size, memcpy}
use etcs.Buffer.{TBuffer, new}

-- `UINT64_MAX`: nothing is published yet, or a write failed.
abbrev pub uint64_max : ℕ
uint64_max = 18446744073709551615

-- `SequentialFrame` and the `LBuffer` behind it.
pub record Slot (n : ℕ) : Type 0 where
  pub sequence : ℕ
  pub writer_rid : ℕ
  pub payload_size : ℕ
  pub ready : Bool
  pub payload : TBuffer n

pub record Page (n : ℕ) : Type 0 where
  pub buffer : ℕ → Slot n
  pub slot_count : ℕ
  pub index_mask : ℕ
  pub sequence : ℕ
  pub publisher_cursor : ℕ
  pub consumer_cursor : ℕ
  pub tombstoned : Bool
  pub reader_rid : ℕ

module _ (n : ℕ) where
  -- A slot as `allocate` constructs it.
  unfoldable pub empty_slot : Slot n
  unfolding new
  empty_slot = record {
    sequence = 0;
    writer_rid = 0;
    payload_size = 0;
    ready = false;
    payload = new n;
  }

module _ {n : ℕ} where
  -- `seq & index_mask_`
  abbrev pub slot_index : Page n → ℕ → ℕ
  slot_index p seq = bit_and seq p.index_mask

  abbrev pub slot : Page n → ℕ → Slot n
  slot p seq = p.buffer (slot_index p seq)

  unfoldable pub copy_payload : TBuffer n → TBuffer n → TBuffer n
  copy_payload dest src =
      let len = if ltb src.written n then src.written else n in
      let copied = memcpy dest.buf 0 (take len src.buf) in
      record dest {
        buf = if ltb len n then set copied len 0 else copied;
        written = len;
        read_offset = if leb src.read_offset len then src.read_offset else len;
      }

  -- The stores of `write` into its slot, in the code's order.
  unfoldable pub clear_ready : Slot n → Slot n
  clear_ready s = record s { ready = false }

  unfoldable pub store_header : Slot n → ℕ → ℕ → TBuffer n → Slot n
  store_header s seq rid payload = record s {
    sequence = seq;
    writer_rid = rid;
    payload_size = payload.written;
  }

  unfoldable pub store_payload : Slot n → TBuffer n → Slot n
  unfolding copy_payload
  store_payload s payload = record s { payload = copy_payload s.payload payload }

  unfoldable pub set_ready : Slot n → Slot n
  set_ready s = record s { ready = true }

  abbrev pub store : Page n → ℕ → Slot n → Page n
  store p seq s = record p { buffer = update p.buffer (slot_index p seq) s }

  -- `tryAdvancePublisher`: whether the gap in front of a publisher that is not behind us is open.
  unfoldable pub gap_is_open : Page n → ℕ → Bool
  gap_is_open p my_seq =
      let current = p.publisher_cursor in
      let next = add_size current 1 in
      (not (current == my_seq) && not (add_size current 1 == my_seq))
      && (not (slot p next).ready || not ((slot p next).sequence == next))

  -- One round of its walk moves the cursor if the next slot is ready and not of another lap.
  abbrev pub can_advance : Page n → Bool
  can_advance p =
      let next = add_size p.publisher_cursor 1 in
      (slot p next).ready && (slot p next).sequence == next
