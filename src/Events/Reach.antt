-- ===== src/Events/Reach.antt =====
-- core/EventStream.h, every state that the ordering loop reaches.
use etcs.Base.{
  ℕ, suc, ◌+◌, ◌-◌, ◌<◌, ◌≡◌, refl, sym, ap, subst, ◌∙◌, Bool, List, [], ◌∷◌, Option, none, some,
  leb, if◌then◌else◌, arith, Bool-cases, inl, inr,
}
use etcs.Base.Maps.{update}
use etcs.Gap.{pending, gap_depth, slot_of, is_blocked, blocked, acquire, complete, new_reorder}
use etcs.Gap.Order.{IsValid, acquire-IsValid, complete-IsValid, unblocked_free}
use etcs.Events.{
  EventStream, Handlers, WorkResult, advance_tail, new_stream, launch_slot, service, service_rounds,
  take_completions, drain_completions, place_event, launch_or_park, admit, admit_next,
  ordering_step,
}
use etcs.Events.Service.{IsQuietAt, service_ends, launch_slot-IsValid}
use etcs.Events.Loop.{
  IsOrdered, AreStarted, complete-AreStarted, advance_tail-IsOrdered, vacant_next,
  service-SameWindow, SameWindow,
}

module _ {State Event : Type 0} (h : Handlers State Event) where
  -- Serving a window in order makes it quiet.
  service-IsOrdered :
      (next : ℕ) (s : EventStream State Event)
      → IsValid s.tail_seq next s.reorder
      → IsValid (service h service_rounds s).tail_seq next (service h service_rounds s).reorder
        × ((j : ℕ) → j < gap_depth → IsQuietAt (service h service_rounds s).reorder j)
  service-IsOrdered next s valid =
      let (order, quiet) = service_ends h s.tail_seq next s valid in
      let (same_in, same_tail) = service-SameWindow h service_rounds s in
      (
        subst (λ (t : ℕ). IsValid t next (service h service_rounds s).reorder) (sym same_tail)
            order,
        quiet,
      )

  take_completions_window :
      (results : List (Option WorkResult)) (s : EventStream State Event)
      → IsValid s.tail_seq s.in_seq s.reorder
      → AreStarted s.reorder results
      → IsValid s.tail_seq s.in_seq (take_completions h results s).reorder
        × SameWindow h s (take_completions h results s)
  unfolding take_completions
  take_completions_window [] s valid started = (valid, (refl, refl))
  take_completions_window (none ∷ results) s valid started =
      take_completions_window results (record s { cmp_seq = suc s.cmp_seq }) valid started
  take_completions_window (some r ∷ results) s valid (here, rest) =
      take_completions_window results
        (record s {
          state = h.on_completion s.state r;
          cmp_seq = suc s.cmp_seq;
          reorder = (complete s.reorder r.origin_seq r.address).1;
        })
        (complete-IsValid s.tail_seq s.in_seq r.origin_seq r.address s.reorder valid here)
        (complete-AreStarted s.reorder r.origin_seq r.address results rest)

  drain_completions-IsOrdered :
      (results : List (Option WorkResult)) (s : EventStream State Event)
      → IsOrdered s
      → AreStarted s.reorder results
      → IsOrdered (drain_completions h results s)
  unfolding drain_completions
  drain_completions-IsOrdered results s o started =
      let taken = take_completions h results s in
      let (valid, (same_in, same_tail)) = take_completions_window results s o.window started in
      let (order, quiet) = service-IsOrdered taken.in_seq taken (
        subst (λ (t : ℕ). IsValid t taken.in_seq taken.reorder) (sym same_tail)
          (subst (λ (n : ℕ). IsValid s.tail_seq n taken.reorder) (sym same_in) valid)) in
      let (in_kept, tail_kept) = service-SameWindow h service_rounds taken in
      let le = o.tail_le in
      record {
        window =
            subst
              (λ (n : ℕ).
                IsValid (service h service_rounds taken).tail_seq n
                  (service h service_rounds taken).reorder)
              (sym in_kept) order;
        tail_le = omega arith;
        quiet = quiet;
      }

  place_event-IsValid :
      (event : Event) (s : EventStream State Event)
      → IsOrdered s
      → s.in_seq < gap_depth + s.tail_seq
      → IsValid s.tail_seq (suc s.in_seq) (place_event h event s).reorder
        × (((place_event h event s).reorder.slots (slot_of s.in_seq)).status ≡ pending)
  unfolding place_event acquire update
  place_event-IsValid event s o room = (
    acquire-IsValid s.tail_seq s.in_seq (h.mask_for s.state event) s.reorder o.window o.tail_le
        (vacant_next s o.window room),
    ground arith,
  )

  launch_or_park-IsValid :
      (next : ℕ) (s : EventStream State Event)
      → IsValid s.tail_seq next s.reorder
      → (s.reorder.slots (slot_of s.in_seq)).status ≡ pending
      → IsValid s.tail_seq next (launch_or_park h s).reorder × SameWindow h s (launch_or_park h s)
  unfolding launch_or_park blocked launch_slot
  launch_or_park-IsValid next s valid e =
      elim (Bool-cases (is_blocked s.reorder (slot_of s.in_seq))) [
        | inl stuck ↦ subst (λ (b : Bool). Kept (choose b)) (sym stuck) (valid, (refl, refl))
        | inr free ↦
            subst (λ (b : Bool). Kept (choose b)) (sym free)
              (
                launch_slot-IsValid h s.tail_seq next s s.in_seq valid e
                    (λ j. unblocked_free s.tail_seq next s.reorder (slot_of s.in_seq) j valid free),
                (refl, refl),
              )
      ]
    where
      Kept : EventStream State Event → Type 0
      Kept r = IsValid s.tail_seq next r.reorder × SameWindow h s r

      choose : Bool → EventStream State Event
      choose b =
          if b
          then record s { blocked_admissions = suc s.blocked_admissions }
          else launch_slot h s.in_seq s

  admit-IsOrdered :
      (event : Event) (s : EventStream State Event)
      → IsOrdered s
      → s.in_seq < gap_depth + s.tail_seq
      → IsOrdered (admit h event s)
  unfolding admit place_event
  admit-IsOrdered event s o room =
      let placed = place_event h event s in
      let (valid, status) = place_event-IsValid event s o room in
      let (launched, (in_kept, tail_kept)) =
        launch_or_park-IsValid (suc s.in_seq) placed valid status in
      let after = launch_or_park h placed in
      let (order, quiet) =
        service-IsOrdered (suc s.in_seq) after
          (subst (λ (t : ℕ). IsValid t (suc s.in_seq) after.reorder) (sym tail_kept) launched) in
      let (in_same, tail_same) = service-SameWindow h service_rounds after in
      let le = o.tail_le in
      record {
        window =
            subst
              (λ (n : ℕ).
                IsValid (service h service_rounds after).tail_seq n
                  (service h service_rounds after).reorder)
              (sym (ap suc (in_same ∙ in_kept))) order;
        tail_le = omega arith;
        quiet = quiet;
      }

  admit_next-IsOrdered :
      (input : Option Event) (s : EventStream State Event)
      → IsOrdered s
      → IsOrdered (admit_next h input s)
  unfolding admit_next
  admit_next-IsOrdered none s o = o
  admit_next-IsOrdered (some event) s o =
      elim (Bool-cases (leb gap_depth (s.in_seq - s.tail_seq))) [
        | inl full ↦ subst (λ (b : Bool). IsOrdered (if b then s else admit h event s)) (sym full) o
        | inr room ↦
            subst (λ (b : Bool). IsOrdered (if b then s else admit h event s)) (sym room)
              (admit-IsOrdered event s o (ground arith))
      ]

  pub ordering_step-IsOrdered :
      (results : List (Option WorkResult)) (input : Option Event) (s : EventStream State Event)
      → IsOrdered s
      → AreStarted s.reorder results
      → IsOrdered (ordering_step h results input s)
  unfolding ordering_step
  ordering_step-IsOrdered results input s o started =
      let drained = drain_completions h results s in
      admit_next-IsOrdered input (advance_tail (drained.in_seq - drained.tail_seq) drained) (
        advance_tail-IsOrdered (drained.in_seq - drained.tail_seq) drained
          (drain_completions-IsOrdered results s o started))

  -- The states of the loop, where a worker posts the result of an event whose handler has run.
  pub data Reach (initial : State) (no_event : Event) : EventStream State Event → Type 0 where
    start : Reach initial no_event (new_stream initial no_event)
    later :
        (results : List (Option WorkResult)) (input : Option Event) (s : EventStream State Event)
        → Reach initial no_event s
        → AreStarted s.reorder results
        → Reach initial no_event (ordering_step h results input s)

  new_stream-IsOrdered :
      (initial : State) (no_event : Event) → IsOrdered (new_stream initial no_event)
  unfolding new_stream new_reorder
  new_stream-IsOrdered initial no_event = record {
    window = record {
      placed = λ i h. cc;
      window = λ i h. absurd (cc);
      behind = λ i j h. absurd (cc);
      ordered = λ i j h. cc;
      admitted = λ i j h. cc;
    };
    tail_le = omega arith;
    quiet = λ j below. inr refl;
  }

  pub Reach-IsOrdered :
      (initial : State) (no_event : Event) (s : EventStream State Event)
      → Reach initial no_event s
      → IsOrdered s
  Reach-IsOrdered initial no_event s start = new_stream-IsOrdered initial no_event
  Reach-IsOrdered initial no_event s (later results input before reached started) =
      ordering_step-IsOrdered results input before (Reach-IsOrdered initial no_event before reached)
        started
