-- ===== src/Shared.antt =====
-- core/SharedPage.h, the page whose raw regions producers claim; SequentialSharedPage of the same
-- file is in Sequential. An address is an offset into the page's buffer.
pub mod Claims
pub mod Race
pub mod Sequential
pub mod Log
mod Tests
use etcs.Base.{ℕ, ◌+◌, ◌-◌, Bool, true, false, Option, none, some, ltb, leb, if◌then◌else◌}

pub record SharedPage : Type 0 where
  pub capacity : ℕ
  pub written : ℕ
  pub tombstoned : Bool
  pub reader_rid : ℕ
  pub producers_live : ℕ

-- The headers are padded to a multiple of 16.
unfoldable pub allocate : ℕ → ℕ → ℕ → SharedPage
allocate chunk_size header_size reader_rid = record {
  capacity = chunk_size - header_size;
  written = 0;
  tombstoned = false;
  reader_rid = reader_rid;
  producers_live = 0;
}

-- `written.fetch_add(size)` with the test of what it returned, as one thread sees them.
unfoldable pub begin_write : SharedPage → ℕ → Option ℕ × SharedPage
begin_write p size = (
  if ltb p.capacity (p.written + size) then none else some p.written,
  record p { written = p.written + size },
)

-- `written.fetch_sub(size)`
unfoldable pub roll_back : SharedPage → ℕ → SharedPage
roll_back p size = record p { written = p.written - size }

unfoldable pub end_write : ℕ → Option ℕ × SharedPage → Option ℕ × SharedPage
end_write size (some offset, p) = (some offset, p)
end_write size (none, p) = (none, roll_back p size)

-- `acquireWrite` with no other thread in between.
unfoldable pub acquire_write : SharedPage → ℕ → Option ℕ × SharedPage
acquire_write p size = if p.tombstoned then (none, p) else end_write size (begin_write p size)

-- `acquireRead`: how many bytes of the buffer are written.
unfoldable pub acquire_read : SharedPage → ℕ
acquire_read p = p.written

unfoldable pub is_full : SharedPage → Bool
is_full p = leb p.capacity p.written

unfoldable pub tombstone : SharedPage → SharedPage
tombstone p = record p { tombstoned = true }

unfoldable pub reset : SharedPage → SharedPage
reset p = if p.tombstoned then p else record p { written = 0 }
