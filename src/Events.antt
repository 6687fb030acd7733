-- ===== src/Events.antt =====
-- core/EventStream.h, EventStream: the loop that orders events, admits each when no event in flight
-- shares its tags, and commits them. The derived stream's handlers are parameters; the input ring
-- shows as the event that it holds next, if any, and the completion ring as the list of the pointers
-- that it holds, with `none` for a null one.
pub mod Service
pub mod Loop
pub mod Reach
pub mod Safety
mod Tests
use etcs.Base.{
  ℕ, zero, suc, ◌+◌, ◌-◌, Bool, true, false, ◌&&◌, ◌||◌, List, [], ◌∷◌, Option, none, some, ltb,
  leb, if◌then◌else◌,
}
use etcs.Base.Maps.{update}
use etcs.Tags.{TagMask}
use etcs.Gap.{
  GapReorderBuffer, GapSlot, Status, empty, pending, running, completed, committed, gap_depth,
  slot_of, new_reorder, acquire, is_blocked, blocked, mark_running, abandon, complete, commit,
  vacate,
}

pub data DispatchKind : Type 0 where
  inline : DispatchKind
  async : DispatchKind
  drop_event : DispatchKind

pub record DispatchResult : Type 0 where
  pub kind : DispatchKind
  pub completion : ℕ

-- What a worker posts: the event that it finished, and the address of the result.
pub record WorkResult : Type 0 where
  pub origin_seq : ℕ
  pub address : ℕ

pub record EventStream (State Event : Type 0) : Type 0 where
  pub state : State
  pub reorder : GapReorderBuffer
  pub parked : ℕ → Event
  pub in_seq : ℕ
  pub tail_seq : ℕ
  pub cmp_seq : ℕ
  pub blocked_admissions : ℕ

-- The derived stream: the tags of an event, and the handlers of an event, of a committed result and
-- of what a worker finished.
pub record Handlers (State Event : Type 0) : Type 0 where
  pub mask_for : State → Event → TagMask
  pub on_event : State → Event → ℕ → State × DispatchResult
  pub on_emit : State → GapSlot → State
  pub on_completion : State → WorkResult → State

-- The switch of `launch_slot`.
unfoldable pub dispatch : DispatchKind → ℕ → ℕ → GapReorderBuffer → GapReorderBuffer
dispatch inline seq completion b = (complete b seq completion).1
dispatch async seq completion b = b
dispatch drop_event seq completion b = abandon b seq

-- One round more than twice the slots is enough; see Service.
abbrev pub service_rounds : ℕ
service_rounds = 129

abbrev pub is_empty : Status → Bool
is_empty empty = true
is_empty pending = false
is_empty running = false
is_empty completed = false
is_empty committed = false

module _ {State Event : Type 0} where
  unfoldable pub new_stream : State → Event → EventStream State Event
  unfolding new_reorder
  new_stream initial no_event = record {
    state = initial;
    reorder = new_reorder;
    parked = λ i. no_event;
    in_seq = 0;
    tail_seq = 0;
    cmp_seq = 0;
    blocked_admissions = 0;
  }

  abbrev pub set_reorder : EventStream State Event → GapReorderBuffer → EventStream State Event
  set_reorder s b = record s { reorder = b }

  -- The window's end passes the slots that have been vacated.
  unfoldable pub advance_tail : ℕ → EventStream State Event → EventStream State Event
  advance_tail zero s = s
  advance_tail (suc fuel) s =
      let rest = advance_tail fuel (record s { tail_seq = suc s.tail_seq }) in
      if ltb s.tail_seq s.in_seq && is_empty (s.reorder.slots (slot_of s.tail_seq)).status
      then rest
      else s

module _ {State Event : Type 0} (h : Handlers State Event) where
  unfoldable pub launch_slot : ℕ → EventStream State Event → EventStream State Event
  unfolding dispatch
  launch_slot seq s =
      let (after, result) = h.on_event s.state (s.parked (slot_of seq)) seq in
      record s {
        state = after;
        reorder = dispatch result.kind seq result.completion (mark_running s.reorder seq);
      }

  -- The commit of `service`, with the result emitted while the slot is committed.
  unfoldable pub commit_slot : ℕ → EventStream State Event → EventStream State Event
  commit_slot i s =
      let b = commit s.reorder i in
      record s { state = h.on_emit s.state (b.slots i); reorder = vacate b i }

  unfoldable pub serve_status :
      Status → ℕ → EventStream State Event → Bool × EventStream State Event
  unfolding launch_slot commit_slot
  serve_status empty i s = (false, s)
  serve_status pending i s = (true, launch_slot (s.reorder.slots i).sequence s)
  serve_status running i s = (false, s)
  serve_status completed i s = (true, commit_slot i s)
  serve_status committed i s = (false, s)

  -- One slot of a sweep, and whether there was progress.
  unfoldable pub service_slot : ℕ → EventStream State Event → Bool × EventStream State Event
  service_slot i s =
      if is_blocked s.reorder i then (false, s) else serve_status (s.reorder.slots i).status i s

  unfoldable pub sweep : ℕ → ℕ → Bool → EventStream State Event → Bool × EventStream State Event
  sweep zero i progress s = (progress, s)
  sweep (suc n) i progress s =
      let (moved, next) = service_slot i s in sweep n (suc i) (progress || moved) next

  -- `service`: sweeps as long as there is progress.
  unfoldable pub service : ℕ → EventStream State Event → EventStream State Event
  service zero s = s
  service (suc fuel) s =
      let (progress, next) = sweep gap_depth 0 false s in
      let rest = service fuel next in if progress then rest else next

  unfoldable pub take_completions :
      List (Option WorkResult) → EventStream State Event → EventStream State Event
  take_completions [] s = s
  take_completions (none ∷ results) s =
      take_completions results (record s { cmp_seq = suc s.cmp_seq })
  take_completions (some result ∷ results) s = take_completions results (record s {
    state = h.on_completion s.state result;
    cmp_seq = suc s.cmp_seq;
    reorder = (complete s.reorder result.origin_seq result.address).1;
  })

  unfoldable pub drain_completions :
      List (Option WorkResult) → EventStream State Event → EventStream State Event
  drain_completions results s = service service_rounds (take_completions results s)

  -- The part of the loop that takes one event in, up to `++in_seq_`.
  unfoldable pub place_event : Event → EventStream State Event → EventStream State Event
  place_event event s = record s {
    parked = update s.parked (slot_of s.in_seq) event;
    reorder = acquire s.reorder s.in_seq (h.mask_for s.state event);
  }

  unfoldable pub launch_or_park : EventStream State Event → EventStream State Event
  launch_or_park s =
      if blocked s.reorder s.in_seq
      then record s { blocked_admissions = suc s.blocked_admissions }
      else launch_slot s.in_seq s

  unfoldable pub admit : Event → EventStream State Event → EventStream State Event
  admit event s =
      let served = service service_rounds (launch_or_park (place_event event s)) in
      record served { in_seq = suc served.in_seq }

  unfoldable pub admit_next : Option Event → EventStream State Event → EventStream State Event
  admit_next none s = s
  admit_next (some event) s = if leb gap_depth (s.in_seq - s.tail_seq) then s else admit event s

  -- One round of `ordering_loop`.
  unfoldable pub ordering_step :
      List (Option WorkResult) → Option Event → EventStream State Event → EventStream State Event
  unfolding admit_next
  ordering_step results input s =
      let drained = drain_completions results s in
      admit_next input (advance_tail (drained.in_seq - drained.tail_seq) drained)
