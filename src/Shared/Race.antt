-- ===== src/Shared/Race.antt =====
-- core/SharedPage.h, `acquireWrite` of several threads: between the `fetch_add` of a call that finds
-- the page full and its `fetch_sub`, other calls see a position that is about to move back.
use etcs.Base.{
  ℕ, ◌+◌, ◌-◌, ◌≤◌, ◌<◌, ◌≡◌, refl, ap, ◌∙◌, arith, Bool, true, false, Option, none, some, ltb,
  if◌then◌else◌,
}
use etcs.Shared.{SharedPage, begin_write, roll_back, end_write, acquire_write}

-- The first four steps: two calls that will fail add, and the first of them takes back.
abbrev pub one_back : SharedPage → ℕ → ℕ → SharedPage
one_back p a b = roll_back (begin_write (begin_write p a).1 b).1 a

-- A third call runs, the second takes back, and a fourth call runs.
abbrev pub third : SharedPage → ℕ → ℕ → ℕ → Option ℕ × SharedPage
third p a b d = acquire_write (one_back p a b) d

abbrev pub fourth : SharedPage → ℕ → ℕ → ℕ → ℕ → Option ℕ × SharedPage
fourth p a b d e = acquire_write (roll_back (third p a b d).1 b) e

runs :
    (p : SharedPage) (size : ℕ)
    → p.tombstoned ≡ false
    → p.written + size ≤ p.capacity
    → acquire_write p size ≡ (some p.written, record p { written = p.written + size })
unfolding acquire_write end_write begin_write
runs p size live h = call p.tombstoned (ltb p.capacity (p.written + size)) live room
  where
    room : ltb p.capacity (p.written + size) ≡ false
    room = ground arith

    call :
        (dead full : Bool)
        → dead ≡ false
        → full ≡ false
        → (if dead
            then (none, p)
            else end_write size
                (if full then none else some p.written, record p { written = p.written + size }))
          ≡ (some p.written, record p { written = p.written + size })
    call false false e f = refl
    call false true e f = absurd (cc)
    call true full e f = absurd (cc)

refused :
    (p : SharedPage) (size : ℕ) → p.capacity < p.written + size → (begin_write p size).0 ≡ none
unfolding begin_write
refused p size h = ground arith

-- On a live page, two writes that overlap and both find the page full let two later writes claim
-- regions that overlap, each beginning before the other ends: where the second is not empty, both
-- later regions end within the capacity, and the later two are together larger than the second.
pub acquire_write_overlaps :
    (p : SharedPage) (a b d e : ℕ)
    → p.tombstoned ≡ false
    → p.capacity < p.written + a
    → 0 < b
    → p.written + b + d ≤ p.capacity
    → p.written + d + e ≤ p.capacity
    → b < d + e
    → ((begin_write p a).0 ≡ none)
      × ((begin_write (begin_write p a).1 b).0 ≡ none)
      × (x : ℕ) × (y : ℕ) × ((third p a b d).0 ≡ some x)
      × ((fourth p a b d e).0 ≡ some y)
      × (x < y + e)
      × (y < x + d)
unfolding begin_write roll_back
acquire_write_overlaps p a b d e live full some_b room_d room_e wide = (
  refused p a full,
  refused (record p { written = p.written + a }) b (omega arith),
  p.written + a + b - a,
  p.written + a + b - a + d - b,
  ap (λ (r : Option ℕ × SharedPage). r.0) third_runs,
  ap (λ (r : Option ℕ × SharedPage). (acquire_write (roll_back r.1 b) e).0) third_runs
      ∙ ap (λ (r : Option ℕ × SharedPage). r.0)
          (runs (record p { written = p.written + a + b - a + d - b }) e live (omega arith)),
  omega arith,
  omega arith,
)
  where
    third_runs :
        third p a b d
        ≡ (some (p.written + a + b - a), record p { written = p.written + a + b - a + d })
    third_runs = runs (record p { written = p.written + a + b - a }) d live (omega arith)
