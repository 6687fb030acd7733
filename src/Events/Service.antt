-- ===== src/Events/Service.antt =====
-- core/EventStream.h, `service` ends, and when it does no slot can be served.
use etcs.Base.{
  ℕ, zero, suc, ◌+◌, ◌≤◌, ◌<◌, ◌≡◌, refl, sym, ap, subst, Bool, true, false, if◌then◌else◌, arith,
  ℕ_discrete, Bool-cases, inl, inr, ◌⊎◌,
}
use etcs.Base.Maps.{update}
use etcs.Gap.{
  GapReorderBuffer, GapSlot, Status, empty, pending, running, completed, committed, gap_depth,
  slot_of, is_live, is_blocked, mark_running, abandon, complete, commit, vacate,
}
use etcs.Gap.Order.{
  IsValid, is_started, mark_running-IsValid, abandon-IsValid, complete-IsValid,
  vacate-commit-IsValid, unblocked_free,
}
use etcs.Events.{
  Handlers, EventStream, DispatchKind, inline, async, drop_event, dispatch, launch_slot,
  commit_slot, serve_status, service_slot, sweep, service, service_rounds,
}

-- What `service` can still do for a slot: launch it, commit it, or nothing.
abbrev pub weight : Status → ℕ
weight empty = 0
weight pending = 2
weight running = 0
weight completed = 1
weight committed = 0

pub total : ℕ → (ℕ → GapSlot) → ℕ
total zero slots = 0
total (suc n) slots = weight (slots n).status + total n slots

-- A slot outside the count does not matter, and one inside counts for its status.
total-update_above :
    (n i : ℕ) (slots : ℕ → GapSlot) (x : GapSlot)
    → n ≤ i
    → total n (update slots i x) ≡ total n slots
unfolding total update
total-update_above zero i slots x h = refl
total-update_above (suc n) i slots x h = ground (arith, total-update_above n i slots x)

total-update :
    (n i : ℕ) (slots : ℕ → GapSlot) (x : GapSlot)
    → i < n
    → total n (update slots i x) + weight (slots i).status ≡ total n slots + weight x.status
unfolding total update
total-update zero i slots x h = absurd (omega arith)
total-update (suc n) i slots x h =
    ground (arith, total-update n i slots x, total-update_above n i slots x)

total_le : (n : ℕ) (slots : ℕ → GapSlot) → total n slots ≤ n + n
unfolding total
total_le zero slots = omega arith
total_le (suc n) slots = omega (arith, weight_le (slots n).status, total_le n slots)
  where
    weight_le : (s : Status) → weight s ≤ 2
    weight_le empty = omega arith
    weight_le pending = omega arith
    weight_le running = omega arith
    weight_le completed = omega arith
    weight_le committed = omega arith

-- A slot that `service` would leave alone.
abbrev pub IsQuietAt : GapReorderBuffer → ℕ → Type 0
IsQuietAt b i = (is_blocked b i ≡ true) ⊎ (weight (b.slots i).status ≡ 0)

mark_running_status :
    (b : GapReorderBuffer) (seq : ℕ) → ((mark_running b seq).slots (slot_of seq)).status ≡ running
unfolding mark_running update
mark_running_status b seq = ground arith

-- The handler leaves its slot running, completed or empty, whatever it answers.
dispatch-IsValid :
    (tail next seq completion : ℕ) (kind : DispatchKind) (b : GapReorderBuffer)
    → IsValid tail next b
    → (b.slots (slot_of seq)).status ≡ running
    → IsValid tail next (dispatch kind seq completion b)
unfolding dispatch
dispatch-IsValid tail next seq completion inline b valid e =
    complete-IsValid tail next seq completion b valid (ap is_started e)
dispatch-IsValid tail next seq completion async b valid e = valid
dispatch-IsValid tail next seq completion drop_event b valid e =
    abandon-IsValid tail next seq b valid

total-dispatch :
    (seq completion : ℕ) (kind : DispatchKind) (b : GapReorderBuffer)
    → slot_of seq < gap_depth
    → (b.slots (slot_of seq)).status ≡ running
    → total gap_depth (dispatch kind seq completion b).slots ≤ suc (total gap_depth b.slots)
unfolding dispatch complete abandon
total-dispatch seq completion inline b low e =
    omega (arith, total-update gap_depth (slot_of seq) b.slots _ low)
total-dispatch seq completion async b low e = omega arith
total-dispatch seq completion drop_event b low e =
    omega (arith, total-update gap_depth (slot_of seq) b.slots _ low)

total-mark_running :
    (b : GapReorderBuffer) (seq : ℕ)
    → slot_of seq < gap_depth
    → (b.slots (slot_of seq)).status ≡ pending
    → total gap_depth (mark_running b seq).slots + 2 ≡ total gap_depth b.slots
unfolding mark_running
total-mark_running b seq low e =
    omega (arith, total-update gap_depth (slot_of seq) b.slots _ low, ap weight e)

total-commit :
    (b : GapReorderBuffer) (i : ℕ)
    → i < gap_depth
    → (b.slots i).status ≡ completed
    → total gap_depth (commit b i).slots + 1 ≡ total gap_depth b.slots
unfolding commit
total-commit b i low e = omega (arith, total-update gap_depth i b.slots _ low, ap weight e)

total-vacate :
    (b : GapReorderBuffer) (i : ℕ)
    → i < gap_depth
    → total gap_depth (vacate b i).slots ≤ total gap_depth b.slots
unfolding vacate
total-vacate b i low = omega (arith, total-update gap_depth i b.slots _ low)

module _ {State Event : Type 0} (h : Handlers State Event) (tail next : ℕ) where
  -- A slot is left alone, or served with less left to do.
  abbrev Still : ℕ → EventStream State Event → Bool × EventStream State Event → Type 0
  Still i s r = (r ≡ (false, s)) × IsQuietAt s.reorder i

  abbrev Moved : EventStream State Event → Bool × EventStream State Event → Type 0
  Moved s r =
      (r.0 ≡ true)
      × IsValid tail next r.1.reorder
      × (total gap_depth r.1.reorder.slots < total gap_depth s.reorder.slots)

  pub launch_slot-IsValid :
      (s : EventStream State Event) (seq : ℕ)
      → IsValid tail next s.reorder
      → (s.reorder.slots (slot_of seq)).status ≡ pending
      → ((j : ℕ) → s.reorder.blocked_by (slot_of seq) j ≡ false)
      → IsValid tail next (launch_slot h seq s).reorder
  unfolding launch_slot
  launch_slot-IsValid s seq valid e free =
      let result = (h.on_event s.state (s.parked (slot_of seq)) seq).1 in
      dispatch-IsValid tail next seq result.completion result.kind (mark_running s.reorder seq)
        (mark_running-IsValid tail next seq s.reorder valid (ap is_live e) free)
        (mark_running_status s.reorder seq)

  total-launch_slot :
      (s : EventStream State Event) (seq : ℕ)
      → slot_of seq < gap_depth
      → (s.reorder.slots (slot_of seq)).status ≡ pending
      → total gap_depth (launch_slot h seq s).reorder.slots < total gap_depth s.reorder.slots
  unfolding launch_slot
  total-launch_slot s seq low e =
      let result = (h.on_event s.state (s.parked (slot_of seq)) seq).1 in
      omega (
        arith,
        total-dispatch seq result.completion result.kind (mark_running s.reorder seq) low
            (mark_running_status s.reorder seq),
        total-mark_running s.reorder seq low e,
      )

  serve_status_lem :
      (s : EventStream State Event) (i : ℕ) (status : Status)
      → i < gap_depth
      → IsValid tail next s.reorder
      → (s.reorder.slots i).status ≡ status
      → is_blocked s.reorder i ≡ false
      → Still i s (serve_status h status i s) ⊎ Moved s (serve_status h status i s)
  unfolding serve_status commit_slot
  serve_status_lem s i empty low valid e free = inl (refl, inr (ap weight e))
  serve_status_lem s i running low valid e free = inl (refl, inr (ap weight e))
  serve_status_lem s i committed low valid e free = inl (refl, inr (ap weight e))
  serve_status_lem s i completed low valid e free = inr (
    refl,
    vacate-commit-IsValid tail next i s.reorder valid
        (λ j. unblocked_free tail next s.reorder i j valid free),
    omega (arith, total-commit s.reorder i low e, total-vacate (commit s.reorder i) i low),
  )
  serve_status_lem s i pending low valid e free =
      let seq = (s.reorder.slots i).sequence in
      let here : i ≡ slot_of seq = sym (valid.placed i (ap is_live e)) in
      let status : (s.reorder.slots (slot_of seq)).status ≡ pending =
        subst (λ (k : ℕ). (s.reorder.slots k).status ≡ pending) here e in
      inr (
        refl,
        launch_slot-IsValid s seq valid status (
            subst (λ (k : ℕ). (j : ℕ) → s.reorder.blocked_by k j ≡ false) here
              (λ j. unblocked_free tail next s.reorder i j valid free)),
        total-launch_slot s seq (omega arith) status,
      )

  service_slot_lem :
      (s : EventStream State Event) (i : ℕ)
      → i < gap_depth
      → IsValid tail next s.reorder
      → Still i s (service_slot h i s) ⊎ Moved s (service_slot h i s)
  unfolding service_slot
  service_slot_lem s i low valid = elim (Bool-cases (is_blocked s.reorder i)) [
    | inl stuck ↦ subst (λ (b : Bool). Served (choose b)) (sym stuck) (inl (refl, inl stuck))
    | inr free ↦
        subst (λ (b : Bool). Served (choose b)) (sym free)
          (serve_status_lem s i (s.reorder.slots i).status low valid refl free)
  ]
    where
      choose : Bool → Bool × EventStream State Event
      choose b = if b then (false, s) else serve_status h (s.reorder.slots i).status i s

      Served : Bool × EventStream State Event → Type 0
      Served r = Still i s r ⊎ Moved s r

  -- What a sweep comes to: nothing to do in the slots that it visits, or less left to do.
  abbrev Swept : ℕ → ℕ → EventStream State Event → Bool × EventStream State Event → Type 0
  Swept n i s r =
      (r ≡ (false, s)) × ((j : ℕ) → i ≤ j → j < i + n → IsQuietAt s.reorder j) ⊎ Moved s r

  abbrev On : EventStream State Event → Bool × EventStream State Event → Type 0
  On s r =
      (r.0 ≡ true)
      × IsValid tail next r.1.reorder
      × (total gap_depth r.1.reorder.slots ≤ total gap_depth s.reorder.slots)

  sweep_after :
      (n i : ℕ) (s : EventStream State Event)
      → i + n ≤ gap_depth
      → IsValid tail next s.reorder
      → On s (sweep h n i true s)
  unfolding sweep
  sweep_after zero i s low valid = (refl, valid, omega arith)
  sweep_after (suc n) i s low valid = elim (service_slot_lem s i (omega arith) valid) [
    | inl (same, quiet) ↦
        subst (λ (r : Bool × EventStream State Event). On s (sweep h n (suc i) true r.1)) (sym same)
          (sweep_after n (suc i) s (omega arith) valid)
    | inr (moved, kept, less) ↦
        let (flag, after, le) = sweep_after n (suc i) (service_slot h i s).1 (omega arith) kept in
        (flag, after, omega arith)
  ]

  sweep_lem :
      (n i : ℕ) (s : EventStream State Event)
      → i + n ≤ gap_depth
      → IsValid tail next s.reorder
      → Swept n i s (sweep h n i false s)
  unfolding sweep
  sweep_lem zero i s low valid = inl (refl, λ j ge lt. absurd (omega arith))
  sweep_lem (suc n) i s low valid = elim (service_slot_lem s i (omega arith) valid) [
    | inl (same, quiet) ↦
        subst
          (λ (r : Bool × EventStream State Event). Swept (suc n) i s (sweep h n (suc i) r.0 r.1))
          (sym same) (further s quiet (sweep_lem n (suc i) s (omega arith) valid))
    | inr (moved, kept, less) ↦
        let (flag, after, le) = sweep_after n (suc i) (service_slot h i s).1 (omega arith) kept in
        subst (λ (b : Bool). Swept (suc n) i s (sweep h n (suc i) b (service_slot h i s).1))
          (sym moved) (inr (flag, after, omega arith))
  ]
    where
      further :
          (s : EventStream State Event)
          → IsQuietAt s.reorder i
          → Swept n (suc i) s (sweep h n (suc i) false s)
          → Swept (suc n) i s (sweep h n (suc i) false s)
      further s quiet (inr moved) = inr moved
      further s quiet (inl (same, rest)) = inl (
        same,
        λ j ge lt. elim (ℕ_discrete i j) [
          | yes e ↦ subst (IsQuietAt s.reorder) e quiet
          | no ne ↦ rest j (omega arith) (omega arith)
        ],
      )

  abbrev Ended : EventStream State Event → Type 0
  Ended s = IsValid tail next s.reorder × ((j : ℕ) → j < gap_depth → IsQuietAt s.reorder j)

  -- With more rounds than there is to do, the sweeps end and leave nothing to serve.
  service_from :
      (fuel : ℕ) (s : EventStream State Event)
      → total gap_depth s.reorder.slots < fuel
      → IsValid tail next s.reorder
      → Ended (service h fuel s)
  unfolding service
  service_from zero s less valid = absurd (omega arith)
  service_from (suc fuel) s less valid = elim (sweep_lem gap_depth 0 s (omega arith) valid) [
    | inl (same, quiet) ↦
        subst
          (λ (r : Bool × EventStream State Event). Ended (if r.0 then service h fuel r.1 else r.1))
          (sym same) (valid, λ j low. quiet j (omega arith) (omega arith))
    | inr (moved, kept, fewer) ↦
        let later = (sweep h gap_depth 0 false s).1 in
        subst (λ (b : Bool). Ended (if b then service h fuel later else later)) (sym moved)
          (service_from fuel later (omega arith) kept)
  ]

  -- The rounds that the stream gives to its service are enough on every window that is in order:
  -- afterwards each slot is blocked or has neither an event to launch nor a result to commit, and the
  -- window is in order.
  pub service_ends :
      (s : EventStream State Event)
      → IsValid tail next s.reorder
      → IsValid tail next (service h service_rounds s).reorder
        × ((j : ℕ) → j < gap_depth → IsQuietAt (service h service_rounds s).reorder j)
  service_ends s valid =
      service_from service_rounds s (omega (arith, total_le gap_depth s.reorder.slots)) valid
