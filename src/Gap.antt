-- ===== src/Gap.antt =====
-- core/EventStream.h, GapReorderBuffer: the slots of the events in flight, and for each slot the
-- slots that it waits for. A word of `blocked_by_` is read as its bits, and `result` is an address.
pub mod Order
use etcs.Base.{ℕ, ◌%◌, Bool, true, false, not, ◌&&◌, ltb, ◌==◌, if◌then◌else◌}
use etcs.Base.Maps.{update}
use etcs.Base.Bounded.{any_below}
use etcs.Tags.{TagMask, no_tags, intersects}

-- `GAP_DEPTH`
abbrev pub gap_depth : ℕ
gap_depth = 64

pub data Status : Type 0 where
  empty : Status
  pending : Status
  running : Status
  completed : Status
  committed : Status

pub record GapSlot : Type 0 where
  pub sequence : ℕ
  pub tag_closure_mask : TagMask
  pub status : Status
  pub result : ℕ

pub record GapReorderBuffer : Type 0 where
  pub blocked_by : ℕ → ℕ → Bool
  pub slots : ℕ → GapSlot

unfoldable pub new_reorder : GapReorderBuffer
new_reorder = record {
  blocked_by = λ i j. false;
  slots = λ i. record { sequence = 0; tag_closure_mask = no_tags; status = empty; result = 0 };
}

-- Neither empty nor committed.
abbrev pub is_live : Status → Bool
is_live empty = false
is_live pending = true
is_live running = true
is_live completed = true
is_live committed = false

abbrev pub slot_of : ℕ → ℕ
slot_of sequence = sequence % gap_depth

unfoldable pub must_wait : GapReorderBuffer → ℕ → TagMask → ℕ → Bool
must_wait b idx mask i =
    ltb i gap_depth
    && (not (i == idx)
        && (is_live (b.slots i).status && intersects (b.slots i).tag_closure_mask mask))

unfoldable pub acquire : GapReorderBuffer → ℕ → TagMask → GapReorderBuffer
unfolding must_wait
acquire b sequence mask =
    let idx = slot_of sequence in
    record {
      blocked_by = update b.blocked_by idx (must_wait b idx mask);
      slots =
          update b.slots idx
            (record { sequence = sequence; tag_closure_mask = mask; status = pending; result = 0 });
    }

abbrev pub is_blocked : GapReorderBuffer → ℕ → Bool
is_blocked b idx = any_below gap_depth (b.blocked_by idx)

unfoldable pub blocked : GapReorderBuffer → ℕ → Bool
blocked b sequence = is_blocked b (slot_of sequence)

abbrev pub set_status : GapReorderBuffer → ℕ → Status → GapReorderBuffer
set_status b idx status = record b {
  slots = update b.slots idx (record (b.slots idx) { status = status });
}

unfoldable pub mark_running : GapReorderBuffer → ℕ → GapReorderBuffer
mark_running b sequence = set_status b (slot_of sequence) running

-- `blocked_by_[j] &= ~(1 << idx)` for every slot `j`.
abbrev pub release_waiters : (ℕ → ℕ → Bool) → ℕ → ℕ → ℕ → Bool
release_waiters blocked_by idx j i = blocked_by j i && not (i == idx)

unfoldable pub abandon : GapReorderBuffer → ℕ → GapReorderBuffer
abandon b sequence =
    let idx = slot_of sequence in
    record (set_status b idx empty) {
      blocked_by = release_waiters (update b.blocked_by idx (λ i. false)) idx;
    }

-- The result says whether nothing blocks the slot.
unfoldable pub complete : GapReorderBuffer → ℕ → ℕ → Bool × GapReorderBuffer
complete b sequence result =
    let idx = slot_of sequence in
    (
      not (is_blocked b idx),
      record b {
        slots = update b.slots idx (record (b.slots idx) { result = result; status = completed });
      },
    )

-- `service` on a completed slot, before and after the result is emitted.
unfoldable pub commit : GapReorderBuffer → ℕ → GapReorderBuffer
commit b i = record (set_status b i committed) {
  blocked_by = update (release_waiters b.blocked_by i) i (b.blocked_by i);
}

unfoldable pub vacate : GapReorderBuffer → ℕ → GapReorderBuffer
vacate b i = set_status b i empty
