-- ===== src/Events/Tests.antt =====
-- The ordering loop on two events of different tags whose work runs elsewhere.
use etcs.Base.{ℕ, ◌<◌, ◌≡◌, refl, true, false, [], ◌∷◌, none, some, arith}
use etcs.Base.Maps.{update}
use etcs.Base.Bounded.{any_below}
use etcs.Tags.{bit, intersects}
use etcs.Gap.{
  running, pending, acquire, must_wait, mark_running, new_reorder, gap_depth, blocked, complete,
  commit, vacate,
}
use etcs.Gap.Order.{live_at, is_started}
use etcs.Events.{
  service_rounds, EventStream, Handlers, async, new_stream, ordering_step, dispatch, launch_slot,
  commit_slot, serve_status, service_slot, sweep, service, take_completions, drain_completions,
  place_event, launch_or_park, admit, admit_next, advance_tail,
}
use etcs.Gap.Order.{IsValid}
use etcs.Events.Service.{IsQuietAt, service_ends}
use etcs.Events.Reach.{Reach, start, later, Reach-IsOrdered}
use etcs.Events.Safety.{started_alone, some_running}

abbrev workers : Handlers ℕ ℕ
workers = record {
  mask_for = λ s e. bit e;
  on_event = λ s e seq. (s, record { kind = async; completion = 0 });
  on_emit = λ s slot. s;
  on_completion = λ s r. s;
}

abbrev two_events : EventStream ℕ ℕ
two_events = ordering_step workers [] (some 1) (ordering_step workers [] (some 0) (new_stream 0 0))

two_events-Reach : Reach workers 0 0 two_events
two_events-Reach =
    later [] (some 1) (ordering_step workers [] (some 0) (new_stream 0 0))
      (later [] (some 0) (new_stream 0 0) start tt) tt

second_started : is_started (two_events.reorder.slots 1).status ≡ true
unfolding ordering_step drain_completions take_completions admit admit_next place_event
    launch_or_park launch_slot service sweep service_slot serve_status commit_slot commit vacate
    mark_running dispatch acquire must_wait blocked any_below update advance_tail new_stream
    new_reorder intersects bit complete
second_started = refl

first_live : live_at two_events.reorder 0 ≡ true
unfolding ordering_step drain_completions take_completions admit admit_next place_event
    launch_or_park launch_slot service sweep service_slot serve_status commit_slot commit vacate
    mark_running dispatch acquire must_wait blocked any_below update advance_tail new_stream
    new_reorder intersects bit complete
first_live = refl

first_earlier : (two_events.reorder.slots 0).sequence < (two_events.reorder.slots 1).sequence
unfolding ordering_step drain_completions take_completions admit admit_next place_event
    launch_or_park launch_slot service sweep service_slot serve_status commit_slot commit vacate
    mark_running dispatch acquire must_wait blocked any_below update advance_tail new_stream
    new_reorder intersects bit complete
first_earlier = omega arith

started_alone_example :
    intersects
      (two_events.reorder.slots 0).tag_closure_mask
      (two_events.reorder.slots 1).tag_closure_mask
    ≡ false
started_alone_example =
    started_alone workers 0 0 two_events two_events-Reach 1 0 second_started first_live
      first_earlier

some_running_example : (j : ℕ) × ((two_events.reorder.slots j).status ≡ running)
some_running_example = some_running workers 0 0 two_events two_events-Reach 0 first_live

service_ends_example :
    IsValid two_events.tail_seq two_events.in_seq
      (service workers service_rounds two_events).reorder
    × ((j : ℕ) → j < gap_depth → IsQuietAt (service workers service_rounds two_events).reorder j)
service_ends_example =
    service_ends workers two_events.tail_seq two_events.in_seq two_events
      (Reach-IsOrdered workers 0 0 two_events two_events-Reach).window

-- Two events with the same tag: the second waits in its slot.
abbrev same_tag : EventStream ℕ ℕ
same_tag = ordering_step workers [] (some 1) (ordering_step workers [] (some 1) (new_stream 0 0))

second_waits : (same_tag.reorder.slots 1).status ≡ pending
unfolding ordering_step drain_completions take_completions admit admit_next place_event
    launch_or_park launch_slot service sweep service_slot serve_status commit_slot commit vacate
    mark_running dispatch acquire must_wait blocked any_below update advance_tail new_stream
    new_reorder intersects bit complete
second_waits = refl

-- Once the first has finished, the second runs and the first has left its slot.
abbrev first_done : EventStream ℕ ℕ
first_done =
    ordering_step workers (some (record { origin_seq = 0; address = 7 }) ∷ []) none same_tag

second_runs : (first_done.reorder.slots 1).status ≡ running
unfolding ordering_step drain_completions take_completions admit admit_next place_event
    launch_or_park launch_slot service sweep service_slot serve_status commit_slot commit vacate
    mark_running dispatch acquire must_wait blocked any_below update advance_tail new_stream
    new_reorder intersects bit complete
second_runs = refl
