-- ===== src/Events/Safety.antt =====
-- core/EventStream.h, what holds of the events in flight in every state of the ordering loop.
use etcs.Base.{ℕ, zero, suc, ◌<◌, ◌≡◌, refl, true, false, Bool-cases, inl, inr, arith}
use etcs.Base.Bounded.{any_below_some}
use etcs.Tags.{intersects}
use etcs.Gap.{
  GapReorderBuffer, Status, empty, pending, running, completed, committed, gap_depth, is_live,
}
use etcs.Gap.Order.{IsValid, live_at, is_started, started_live}
use etcs.Events.{EventStream, Handlers}
use etcs.Events.Service.{IsQuietAt, weight}
use etcs.Events.Reach.{Reach, Reach-IsOrdered}

ordered_apart :
    (tail next i j : ℕ) (b : GapReorderBuffer)
    → IsValid tail next b
    → is_started (b.slots i).status ≡ true
    → live_at b j ≡ true
    → (b.slots j).sequence < (b.slots i).sequence
    → intersects (b.slots j).tag_closure_mask (b.slots i).tag_closure_mask ≡ false
ordered_apart tail next i j b valid started live earlier =
    elim (Bool-cases (intersects (b.slots j).tag_closure_mask (b.slots i).tag_closure_mask)) [
      | inr apart ↦ apart
      | inl meet ↦
          let waits =
            valid.ordered i j (started_live (b.slots i).status started) live earlier meet in
          let free = valid.admitted i j started in absurd (cc)
    ]

live_unweighted : (s : Status) → is_live s ≡ true → weight s ≡ 0 → s ≡ running
live_unweighted empty h w = cc
live_unweighted pending h w = cc
live_unweighted running h w = refl
live_unweighted completed h w = cc
live_unweighted committed h w = cc

-- From a live slot, the slots that are waited for lead to one that is running.
running_behind :
    (tail next : ℕ) (b : GapReorderBuffer)
    → IsValid tail next b
    → ((j : ℕ) → j < gap_depth → IsQuietAt b j)
    → (bound i : ℕ) → (b.slots i).sequence < bound
    → live_at b i ≡ true
    → (j : ℕ) × ((b.slots j).status ≡ running)
running_behind tail next b valid quiet zero i below live = absurd (omega arith)
running_behind tail next b valid quiet (suc bound) i below live =
    let place = valid.placed i live in
    elim (quiet i (omega arith)) [
      | inl stuck ↦
          let (j, inside, waits) = any_below_some gap_depth (b.blocked_by i) stuck in
          let (own, other, earlier) = valid.behind i j waits in
          running_behind tail next b valid quiet bound j (omega arith) other
      | inr idle ↦ (i, live_unweighted (b.slots i).status live idle)
    ]

module _ {State Event : Type 0} (h : Handlers State Event) where
  -- An event whose handler has been called shares no tag with any earlier event that is still in
  -- flight, in every state that the ordering loop reaches from a new stream, where a worker posts the
  -- results of events whose handlers have been called.
  pub started_alone :
      (initial : State) (no_event : Event) (s : EventStream State Event)
      → Reach h initial no_event s
      → (i j : ℕ) → is_started (s.reorder.slots i).status ≡ true
      → live_at s.reorder j ≡ true
      → (s.reorder.slots j).sequence < (s.reorder.slots i).sequence
      → intersects (s.reorder.slots j).tag_closure_mask (s.reorder.slots i).tag_closure_mask ≡ false
  started_alone initial no_event s reached i j started live earlier =
      let o = Reach-IsOrdered h initial no_event s reached in
      ordered_apart s.tail_seq s.in_seq i j s.reorder o.window started live earlier

  -- The stream cannot get stuck by itself: in every state that the ordering loop reaches from a new
  -- stream, where a worker posts the results of events whose handlers have been called, if any event
  -- is in flight then one is running, so that a worker still owes its result.
  pub some_running :
      (initial : State) (no_event : Event) (s : EventStream State Event)
      → Reach h initial no_event s
      → (i : ℕ) → live_at s.reorder i ≡ true
      → (j : ℕ) × ((s.reorder.slots j).status ≡ running)
  some_running initial no_event s reached i live =
      let o = Reach-IsOrdered h initial no_event s reached in
      running_behind s.tail_seq s.in_seq s.reorder o.window o.quiet
        (suc (s.reorder.slots i).sequence) i (omega arith) live
