-- ===== src/Shared/Sequential.antt =====
-- core/SharedPage.h, SequentialSharedPage, each call with no other thread in between: regions are
-- frames with a sequence number. A call that fails an `assert` gives `none`.
use etcs.Base.{
  ℕ, zero, suc, ◌+◌, ◌-◌, Bool, true, false, not, List, [], Option, none, some, ltb, leb, ◌==◌,
  if◌then◌else◌, length, take,
}
use etcs.Base.Maps.{update}
use etcs.Base.Memory.{add_size}

-- The frame at an offset, with the bytes behind its header.
pub record SequentialFrame : Type 0 where
  pub sequence : ℕ
  pub writer_rid : ℕ
  pub payload_size : ℕ
  pub ready : Bool
  pub payload : List ℕ

-- `sizeof(SequentialFrame)`
abbrev pub frame_header : ℕ
frame_header = 32

-- The buffer, by the offsets at which frames begin.
pub record SequentialSharedPage : Type 0 where
  pub buffer : ℕ → SequentialFrame
  pub capacity : ℕ
  pub cursor : ℕ
  pub sequence : ℕ
  pub tombstoned : Bool
  pub reader_rid : ℕ

-- The mapping is zeroed, so that no frame is ready.
unfoldable pub allocate : ℕ → ℕ → ℕ → SequentialSharedPage
allocate chunk_size header_size reader_rid = record {
  buffer = λ offset. record {
    sequence = 0;
    writer_rid = 0;
    payload_size = 0;
    ready = false;
    payload = [];
  };
  capacity = chunk_size - header_size;
  cursor = 0;
  sequence = 0;
  tombstoned = false;
  reader_rid = reader_rid;
}

abbrev pub new_frame : ℕ → ℕ → List ℕ → SequentialFrame
new_frame seq rid payload = record {
  sequence = seq;
  writer_rid = rid;
  payload_size = length payload;
  ready = true;
  payload = payload;
}

-- What `write` does once it has claimed its region and its number.
unfoldable pub append : SequentialSharedPage → ℕ → List ℕ → SequentialSharedPage
append p rid payload = record p {
  buffer = update p.buffer p.cursor (new_frame p.sequence rid payload);
  cursor = p.cursor + (frame_header + length payload);
  sequence = add_size p.sequence 1;
}

-- `write`; `UINT64_MAX` says that the page is full.
unfoldable pub write : SequentialSharedPage → ℕ → List ℕ → Option (ℕ × SequentialSharedPage)
unfolding append
write p rid payload =
    if p.tombstoned
    then none
    else if ltb p.capacity (p.cursor + (frame_header + length payload))
    then some (18446744073709551615, p)
    else some (p.sequence, append p rid payload)

-- The scan of `acquireRead`, in at most `fuel` rounds.
unfoldable pub scan : ℕ → SequentialSharedPage → ℕ → ℕ → Option (List ℕ)
scan zero p expected_seq offset = none
scan (suc fuel) p expected_seq offset =
    let frame = p.buffer offset in
    let rest = scan fuel p expected_seq (offset + (frame_header + frame.payload_size)) in
    if leb (offset + frame_header) p.cursor
    then if not frame.ready
      then none
      else if frame.sequence == expected_seq
      then some (take frame.payload_size frame.payload)
      else rest
    else none

unfoldable pub acquire_read : SequentialSharedPage → ℕ → Option (Option (List ℕ))
unfolding scan
acquire_read p expected_seq =
    if p.tombstoned then none else some (scan (suc p.cursor) p expected_seq 0)

unfoldable pub frame_count : SequentialSharedPage → ℕ
frame_count p = p.sequence

unfoldable pub is_full : SequentialSharedPage → Bool
is_full p = leb p.capacity p.cursor

unfoldable pub tombstone : SequentialSharedPage → SequentialSharedPage
tombstone p = record p { tombstoned = true }

unfoldable pub reset : SequentialSharedPage → Option SequentialSharedPage
reset p = if p.tombstoned then none else some (record p { cursor = 0; sequence = 0 })
