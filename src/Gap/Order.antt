-- ===== src/Gap/Order.antt =====
-- core/EventStream.h, what the slots of a GapReorderBuffer wait for.
use etcs.Base.{ℕ, suc, ◌%◌, ◌≤◌, ◌<◌, ◌≡◌, refl, Bool, true, false, arith, dec_lt}
use etcs.Base.Maps.{update}
use etcs.Base.Bounded.{any_below_none}
use etcs.Tags.{TagMask, intersects}
use etcs.Gap.{
  GapReorderBuffer, Status, empty, pending, running, completed, committed, is_live, slot_of,
  must_wait, acquire, mark_running, abandon, complete, commit, vacate, gap_depth, is_blocked,
}

abbrev pub live_at : GapReorderBuffer → ℕ → Bool
live_at b i = is_live (b.slots i).status

-- Its handler has been called.
abbrev pub is_started : Status → Bool
is_started running = true
is_started completed = true
is_started empty = false
is_started pending = false
is_started committed = false

pub started_live : (s : Status) → is_started s ≡ true → is_live s ≡ true
started_live running h = refl
started_live completed h = refl
started_live empty h = cc
started_live pending h = cc
started_live committed h = cc

-- The events in flight stand in their slots and in the window; a slot waits only for live slots of
-- earlier events, and for each of those whose tags it shares; and one that has started for none.
pub record IsValid (tail next : ℕ) (b : GapReorderBuffer) : Type 0 where
  pub placed : (i : ℕ) → live_at b i ≡ true → (b.slots i).sequence % gap_depth ≡ i
  pub window :
      (i : ℕ) → live_at b i ≡ true → (tail ≤ (b.slots i).sequence) × ((b.slots i).sequence < next)
  pub behind :
      (i j : ℕ)
      → b.blocked_by i j ≡ true
      → (live_at b i ≡ true) × (live_at b j ≡ true) × ((b.slots j).sequence < (b.slots i).sequence)
  pub ordered :
      (i j : ℕ)
      → live_at b i ≡ true
      → live_at b j ≡ true
      → (b.slots j).sequence < (b.slots i).sequence
      → intersects (b.slots j).tag_closure_mask (b.slots i).tag_closure_mask ≡ true
      → b.blocked_by i j ≡ true
  pub admitted : (i j : ℕ) → is_started (b.slots i).status ≡ true → b.blocked_by i j ≡ false

pub mark_running-IsValid :
    (tail next seq : ℕ) (b : GapReorderBuffer)
    → IsValid tail next b
    → live_at b (slot_of seq) ≡ true
    → ((j : ℕ) → b.blocked_by (slot_of seq) j ≡ false)
    → IsValid tail next (mark_running b seq)
unfolding mark_running update
mark_running-IsValid tail next seq b valid live free = record {
  placed = λ i h. ground (arith, valid.placed i);
  window = λ i h. ground (arith, valid.window i);
  behind = λ i j h. ground (arith, valid.behind i j);
  ordered = λ i j h k l m. ground (arith, valid.ordered i j);
  admitted = λ i j h. ground (arith, valid.admitted i j, free j);
}

pub acquire-IsValid :
    (tail seq : ℕ) (mask : TagMask) (b : GapReorderBuffer)
    → IsValid tail seq b
    → tail ≤ seq
    → live_at b (slot_of seq) ≡ false
    → IsValid tail (suc seq) (acquire b seq mask)
unfolding acquire must_wait update
acquire-IsValid tail seq mask b valid le vacant = record {
  placed = λ i h. ground (arith, valid.placed i);
  window = λ i h. ground (arith, valid.window i);
  behind = λ i j h. ground (arith, valid.behind i j, valid.window j);
  ordered = λ i j h k l m. ground (arith, valid.ordered i j, valid.window i, valid.placed j);
  admitted = λ i j h. ground (arith, valid.admitted i j);
}

pub abandon-IsValid :
    (tail next seq : ℕ) (b : GapReorderBuffer)
    → IsValid tail next b
    → IsValid tail next (abandon b seq)
unfolding abandon update
abandon-IsValid tail next seq b valid = record {
  placed = λ i h. ground (arith, valid.placed i);
  window = λ i h. ground (arith, valid.window i);
  behind = λ i j h. ground (arith, valid.behind i j);
  ordered = λ i j h k l m. ground (arith, valid.ordered i j);
  admitted = λ i j h. ground (arith, valid.admitted i j);
}

pub complete-IsValid :
    (tail next seq result : ℕ) (b : GapReorderBuffer)
    → IsValid tail next b
    → is_started (b.slots (slot_of seq)).status ≡ true
    → IsValid tail next (complete b seq result).1
unfolding complete update
complete-IsValid tail next seq result b valid started = record {
  placed =
      λ i h. ground (arith, valid.placed i, started_live (b.slots (slot_of seq)).status started);
  window =
      λ i h. ground (arith, valid.window i, started_live (b.slots (slot_of seq)).status started);
  behind = λ i j h.
      ground (arith, valid.behind i j, started_live (b.slots (slot_of seq)).status started);
  ordered = λ i j h k l m.
      ground (arith, valid.ordered i j, started_live (b.slots (slot_of seq)).status started);
  admitted = λ i j h. ground (arith, valid.admitted i j);
}

-- A slot that nothing blocks is emptied by its commit, and no slot waits for it any more.
pub vacate-commit-IsValid :
    (tail next i : ℕ) (b : GapReorderBuffer)
    → IsValid tail next b
    → ((j : ℕ) → b.blocked_by i j ≡ false)
    → IsValid tail next (vacate (commit b i) i)
unfolding vacate commit update
vacate-commit-IsValid tail next k b valid free = record {
  placed = λ i h. ground (arith, valid.placed i);
  window = λ i h. ground (arith, valid.window i);
  behind = λ i j h. ground (arith, valid.behind i j, free j);
  ordered = λ i j h l m n. ground (arith, valid.ordered i j);
  admitted = λ i j h. ground (arith, valid.admitted i j, free j);
}

-- Bits of `blocked_by` are below the depth, so that a word is zero exactly if no bit is set.
pub unblocked_free :
    (tail next : ℕ) (b : GapReorderBuffer) (i j : ℕ)
    → IsValid tail next b
    → is_blocked b i ≡ false
    → b.blocked_by i j ≡ false
unblocked_free tail next b i j valid h = elim (dec_lt j gap_depth) [
  | yes below ↦ any_below_none gap_depth (b.blocked_by i) j h below
  | no above ↦ ground (arith, valid.behind i j, valid.placed j)
]
