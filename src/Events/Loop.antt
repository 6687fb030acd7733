-- ===== src/Events/Loop.antt =====
-- core/EventStream.h, the ordering loop round after round, with any events and completions.
use etcs.Base.{
  ℕ, zero, suc, ◌+◌, ◌≤◌, ◌<◌, ◌≡◌, ◌≢◌, refl, ap, ◌∙◌, Bool, true, false, ◌&&◌, ◌||◌, List, [],
  ◌∷◌, Option, none, some, ltb, if◌then◌else◌, arith, Bool-cases, inl, inr,
}
use etcs.Base.Maps.{update}
use etcs.Gap.{
  GapReorderBuffer, Status, empty, pending, running, completed, committed, gap_depth, slot_of,
  is_live, is_blocked, complete,
}
use etcs.Gap.Order.{IsValid, live_at, is_started}
use etcs.Events.{
  EventStream, Handlers, WorkResult, is_empty, advance_tail, launch_slot, commit_slot, serve_status,
  service_slot, sweep, service,
}
use etcs.Events.Service.{IsQuietAt}

-- The window is in order, its end is not past its front, and no slot can be served.
pub record IsOrdered {State Event : Type 0} (s : EventStream State Event) : Type 0 where
  pub window : IsValid s.tail_seq s.in_seq s.reorder
  pub tail_le : s.tail_seq ≤ s.in_seq
  pub quiet : (j : ℕ) → j < gap_depth → IsQuietAt s.reorder j

-- The results are of events whose handlers have been called.
abbrev pub AreStarted : GapReorderBuffer → List (Option WorkResult) → Type 0
AreStarted b [] = Unit
AreStarted b (none ∷ results) = AreStarted b results
AreStarted b (some r ∷ results) =
    (is_started (b.slots (slot_of r.origin_seq)).status ≡ true) × AreStarted b results

pub complete_started :
    (b : GapReorderBuffer) (seq address k : ℕ)
    → is_started (b.slots k).status ≡ true
    → is_started ((complete b seq address).1.slots k).status ≡ true
unfolding complete update
complete_started b seq address k h = ground arith

pub complete-AreStarted :
    (b : GapReorderBuffer) (seq address : ℕ) (results : List (Option WorkResult))
    → AreStarted b results
    → AreStarted (complete b seq address).1 results
complete-AreStarted b seq address [] h = tt
complete-AreStarted b seq address (none ∷ results) h = complete-AreStarted b seq address results h
complete-AreStarted b seq address (some r ∷ results) (here, rest) = (
  complete_started b seq address (slot_of r.origin_seq) here,
  complete-AreStarted b seq address results rest,
)

pub next_tail :
    (tail next : ℕ) (b : GapReorderBuffer)
    → IsValid tail next b
    → is_empty (b.slots (slot_of tail)).status ≡ true
    → IsValid (suc tail) next b
next_tail tail next b valid vacant = record {
  placed = valid.placed;
  window = λ i live. ground (arith, valid.window i live, valid.placed i live, passed i live);
  behind = valid.behind;
  ordered = valid.ordered;
  admitted = valid.admitted;
}
  where
    dead : (s : Status) → is_empty s ≡ true → is_live s ≡ false
    dead empty h = refl
    dead pending h = cc
    dead running h = cc
    dead completed h = cc
    dead committed h = cc

    passed : (i : ℕ) → live_at b i ≡ true → slot_of tail ≢ i
    passed i live e =
        let gone = dead (b.slots (slot_of tail)).status vacant in
        let same : live_at b (slot_of tail) ≡ live_at b i = ap (live_at b) e in cc

module _ {State Event : Type 0} where
  pub advance_tail-IsOrdered :
      (fuel : ℕ) (s : EventStream State Event) → IsOrdered s → IsOrdered (advance_tail fuel s)
  unfolding advance_tail
  advance_tail-IsOrdered zero s o = o
  advance_tail-IsOrdered (suc fuel) s o =
      step (ltb s.tail_seq s.in_seq) (is_empty (s.reorder.slots (slot_of s.tail_seq)).status) refl
        refl (advance_tail-IsOrdered fuel (record s { tail_seq = suc s.tail_seq }))
    where
      step :
          (inside vacant : Bool)
          → ltb s.tail_seq s.in_seq ≡ inside
          → is_empty (s.reorder.slots (slot_of s.tail_seq)).status ≡ vacant
          → (IsOrdered (record s { tail_seq = suc s.tail_seq })
              → IsOrdered (advance_tail fuel (record s { tail_seq = suc s.tail_seq })))
          → IsOrdered (
              if inside && vacant
              then advance_tail fuel (record s { tail_seq = suc s.tail_seq })
              else s)
      step false vacant e f rest = o
      step true false e f rest = o
      step true true e f rest = rest (record {
        window = next_tail s.tail_seq s.in_seq s.reorder o.window f;
        tail_le = ground arith;
        quiet = o.quiet;
      })

  -- The slot of the next event is free while the window is shorter than the slots.
  pub vacant_next :
      (s : EventStream State Event)
      → IsValid s.tail_seq s.in_seq s.reorder
      → s.in_seq < gap_depth + s.tail_seq
      → live_at s.reorder (slot_of s.in_seq) ≡ false
  vacant_next s valid room = elim (Bool-cases (live_at s.reorder (slot_of s.in_seq))) [
    | inr free ↦ free
    | inl live ↦
        let place = valid.placed (slot_of s.in_seq) live in
        let (low, high) = valid.window (slot_of s.in_seq) live in absurd (omega arith)
  ]

module _ {State Event : Type 0} (h : Handlers State Event) where
  -- Serving slots moves neither end of the window.
  abbrev pub SameWindow : EventStream State Event → EventStream State Event → Type 0
  SameWindow s r = (r.in_seq ≡ s.in_seq) × (r.tail_seq ≡ s.tail_seq)

  serve_status-SameWindow :
      (status : Status) (i : ℕ) (s : EventStream State Event)
      → SameWindow s (serve_status h status i s).1
  unfolding serve_status launch_slot commit_slot
  serve_status-SameWindow empty i s = (refl, refl)
  serve_status-SameWindow pending i s = (refl, refl)
  serve_status-SameWindow running i s = (refl, refl)
  serve_status-SameWindow completed i s = (refl, refl)
  serve_status-SameWindow committed i s = (refl, refl)

  service_slot-SameWindow :
      (i : ℕ) (s : EventStream State Event) → SameWindow s (service_slot h i s).1
  unfolding service_slot
  service_slot-SameWindow i s = choose (is_blocked s.reorder i)
    where
      choose :
          (b : Bool)
          → SameWindow s (if b then (false, s) else serve_status h (s.reorder.slots i).status i s).1
      choose true = (refl, refl)
      choose false = serve_status-SameWindow (s.reorder.slots i).status i s

  sweep-SameWindow :
      (n i : ℕ) (progress : Bool) (s : EventStream State Event)
      → SameWindow s (sweep h n i progress s).1
  unfolding sweep
  sweep-SameWindow zero i progress s = (refl, refl)
  sweep-SameWindow (suc n) i progress s =
      let (moved, next) = service_slot h i s in
      let (a, b) = service_slot-SameWindow i s in
      let (c, d) = sweep-SameWindow n (suc i) (progress || moved) next in (c ∙ a, d ∙ b)

  pub service-SameWindow :
      (fuel : ℕ) (s : EventStream State Event) → SameWindow s (service h fuel s)
  unfolding service
  service-SameWindow zero s = (refl, refl)
  service-SameWindow (suc fuel) s =
      let (progress, next) = sweep h gap_depth 0 false s in
      let (a, b) = sweep-SameWindow gap_depth 0 false s in
      let (c, d) = service-SameWindow fuel next in
      choose (service h fuel next) next progress (a, b) (c ∙ a, d ∙ b)
    where
      choose :
          (r n : EventStream State Event) (p : Bool)
          → SameWindow s n
          → SameWindow s r
          → SameWindow s (if p then r else n)
      choose r n true x y = y
      choose r n false x y = x
