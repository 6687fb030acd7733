-- ===== src/Mirror/Staging.antt =====
-- core/MirrorBuffer.h, the staging page of `stageAndFlush`: the claim of a region, and the frame that
-- is stored in it.
use mathlib.Core.List.{append_assoc}
use etcs.Base.{
  ℕ, ◌+◌, ◌-◌, ◌^◌, ◌<◌, ◌≤◌, ◌≡◌, refl, sym, subst, ap, ap₂, ◌∙◌, Bool, true, false, not, List, [],
  ◌++◌, Option, none, some, ltb, ◌==◌, if◌then◌else◌, length, take, arith, ◌⊎◌, inl, inr,
  length-append, length-take,
}
use etcs.Base.Memory.{add_size, memcpy, take-memcpy, length-memcpy}
use etcs.Buffer.Contents.{take-take}
use etcs.Shared.{SharedPage, acquire_write, begin_write, end_write, roll_back}
use etcs.Shared
use etcs.Mirror.{WriteOutcome}
use etcs.Mirror.Frames.{frame, le_bytes, length-frame, length-le_bytes}
use etcs.Mirror.Pipe.{Writer, reset_page, flush_loop, flush_staged, store_frame, stage_at}
use etcs.Mirror.Sending.{returned, pushed, IsFlushed}

-- A writer whose pipe is open and whose page has not been torn down.
pub record IsOpen (w : Writer) : Type 0 where
  pub opened : w.write_fd ≡ true
  pub alive : w.page.tombstoned ≡ false
  pub inside : w.page.written ≤ w.page.capacity
  pub buffered : w.page.capacity ≤ length w.buffer
  pub small : w.page.capacity < 2 ^ 63

-- What the staging page holds.
abbrev pub staged_bytes : Writer → List ℕ
staged_bytes w = take w.page.written w.buffer

-- The writer with a frame behind what the page holds.
abbrev pub staged : Writer → List ℕ → Writer
staged w f = record w {
  page = record w.page { written = w.page.written + (8 + length f) };
  buffer = store_frame w.buffer w.page.written f;
}

length-store_frame :
    (buffer : List ℕ) (k : ℕ) (f : List ℕ) → length (store_frame buffer k f) ≡ length buffer
unfolding store_frame
length-store_frame buffer k f =
    length-memcpy (memcpy buffer k (le_bytes 8 (length f))) (k + 8) f
    ∙ length-memcpy buffer k (le_bytes 8 (length f))

take-store_frame :
    (buffer : List ℕ) (k : ℕ) (f : List ℕ)
    → k + (8 + length f) ≤ length buffer
    → take (k + (8 + length f)) (store_frame buffer k f) ≡ take k buffer ++ frame f
unfolding store_frame
take-store_frame buffer k f h =
    let header = le_bytes 8 (length f) in
    let size = length-le_bytes 8 (length f) in
    let one = memcpy buffer k header in
    let e : k + (8 + length f) ≡ (k + 8) + length f = omega arith in
    ap (λ j. take j (memcpy one (k + 8) f)) e
    ∙ take-memcpy one (k + 8) f (omega (arith, length-memcpy buffer k header))
    ∙ ap (λ t. t ++ f)
        (ap (λ j. take (k + j) one) (sym size) ∙ take-memcpy buffer k header (omega (arith, size)))
    ∙ append_assoc (take k buffer) header f

-- What a write has done: all of the page is on the pipe, and the page is free again; or some of it
-- is, and the page still holds it.
abbrev pub IsWritten : Writer → List ℕ → Option Bool × Writer → Type 0
IsWritten w bs (result, w') =
    IsOpen w'
    × (((returned result ≡ true) × (w'.pipe ≡ w.pipe ++ bs) × (staged_bytes w' ≡ []))
        ⊎ ((returned result ≡ false)
            × ((k : ℕ) × (k < length bs)
                × (w'.pipe ≡ w.pipe ++ take k bs)
                × (staged_bytes w' ≡ bs))))

module _ (w : Writer) (f : List ℕ) (v : IsOpen w) where
  module _ (room : w.page.written + (8 + length f) ≤ w.page.capacity) where
    bs_of : take (w.page.written + (8 + length f)) (staged w f).buffer ≡ staged_bytes w ++ frame f
    bs_of = take-store_frame w.buffer w.page.written f (omega (arith, v.buffered))

    staged-IsOpen : IsOpen (staged w f)
    staged-IsOpen = record {
      opened = v.opened;
      alive = v.alive;
      inside = room;
      buffered = omega (arith, v.buffered, length-store_frame w.buffer w.page.written f);
      small = v.small;
    }

    size : length (staged_bytes w ++ frame f) ≡ w.page.written + (8 + length f)
    size = omega (
      arith,
      length-append (staged_bytes w) (frame f),
      length-frame f,
      length-take w.page.written w.buffer,
      v.inside,
      v.buffered,
    )

    abbrev total : ℕ
    total = w.page.written + (8 + length f)

    emptied : Writer → Writer
    emptied x = record x { page = record x.page { written = 0 } }

    reset_page-emptied :
        reset_page (pushed (staged w f) total) ≡ emptied (pushed (staged w f) total)
    unfolding reset_page Shared.reset emptied
    reset_page-emptied =
        let x = pushed (staged w f) total in
        ap (λ b. record x { page = if b then x.page else record x.page { written = 0 } }) v.alive

    done_lem :
        (result : Option Bool)
        → returned result ≡ true
        → IsWritten w (staged_bytes w ++ frame f) (result, emptied (pushed (staged w f) total))
    unfolding emptied
    done_lem result e = (
      record {
        opened = v.opened;
        alive = v.alive;
        inside = omega arith;
        buffered = staged-IsOpen.buffered;
        small = v.small;
      },
      inl (e, ap (λ t. w.pipe ++ t) bs_of, refl),
    )

    prefix : (k : ℕ) → k < total → take k (staged w f).buffer ≡ take k (staged_bytes w ++ frame f)
    prefix k less = sym (take-take k total (staged w f).buffer (omega arith)) ∙ ap (take k) bs_of

    stopped_lem :
        (result : Option Bool) (k : ℕ)
        → returned result ≡ false
        → k < total
        → IsWritten w (staged_bytes w ++ frame f) (result, pushed (staged w f) k)
    stopped_lem result k e less =
        let o = staged-IsOpen in
        (
          record {
            opened = o.opened;
            alive = o.alive;
            inside = o.inside;
            buffered = o.buffered;
            small = o.small;
          },
          inr (e, (k, omega (arith, size, less), ap (λ t. w.pipe ++ t) (prefix k less), bs_of)),
        )

    pub flushed-IsWritten :
        (result : Option Bool × Writer)
        → IsFlushed (staged w f) total result
        → IsWritten w (staged_bytes w ++ frame f) result
    flushed-IsWritten (result, w') (inl e) =
        subst (λ x. IsWritten w (staged_bytes w ++ frame f) (result, x))
          (sym (e.1 ∙ reset_page-emptied)) (done_lem result e.0)
    flushed-IsWritten (result, w') (inr (e, (k, less, same))) =
        subst (λ x. IsWritten w (staged_bytes w ++ frame f) (result, x)) (sym same)
          (stopped_lem result k e less)

  flush_staged_lem :
      (os : List WriteOutcome) (x : Writer)
      → x.write_fd ≡ true
      → 0 < x.page.written
      → flush_staged os x ≡ flush_loop os x.page.written x 0
  unfolding flush_staged
  flush_staged_lem os x opened some_bytes =
      let e : (x.page.written == 0) ≡ false = ground arith in
      ap₂
        (λ b c.
          if not b
          then (some false, x)
          else if c
          then (some true, x)
          else flush_loop os x.page.written x 0)
        opened e

  step :
      (dead : Bool) (k : ℕ) (full : Bool)
      → w.page.tombstoned ≡ dead
      → add_size 8 (length f) ≡ k
      → ltb w.page.capacity (w.page.written + k) ≡ full
      → acquire_write w.page (add_size 8 (length f)) ≡ (
          if dead
          then (none, w.page)
          else end_write k (
            if full then none else some w.page.written,
            record w.page { written = w.page.written + k },
          ))
  unfolding acquire_write begin_write
  step dead k full a e g =
      ap (λ j. if w.page.tombstoned then (none, w.page) else end_write j (begin_write w.page j)) e
      ∙ ap₂
          (λ d b.
            if d
            then (none, w.page)
            else end_write k (
              if b then none else some w.page.written,
              record w.page { written = w.page.written + k },
            ))
          a g

  -- The claim of a region, on both of its outcomes.
  claimed :
      w.page.written + (8 + length f) ≤ w.page.capacity
      → acquire_write w.page (add_size 8 (length f))
        ≡ (some w.page.written, record w.page { written = w.page.written + (8 + length f) })
  unfolding end_write
  claimed room =
      step false (8 + length f) false v.alive (omega (arith, v.small)) (ground (arith, room))

  pub refused :
      w.page.capacity < w.page.written + (8 + length f)
      → length f < 2 ^ 63
      → acquire_write w.page (add_size 8 (length f)) ≡ (none, w.page)
  unfolding end_write roll_back
  refused room few =
      step false (8 + length f) true v.alive (omega (arith, few)) (ground (arith, room))
      ∙ ap (λ k. (none, record w.page { written = k })) back
    where
      back : w.page.written + (8 + length f) - (8 + length f) ≡ w.page.written
      back = omega arith

  pub staging :
      (os : List WriteOutcome)
      → w.page.written + (8 + length f) ≤ w.page.capacity
      → stage_at os w f (acquire_write w.page (add_size 8 (length f)))
        ≡ flush_loop os (w.page.written + (8 + length f)) (staged w f) 0
  unfolding stage_at
  staging os room =
      ap (stage_at os w f) (claimed room) ∙ flush_staged_lem os (staged w f) v.opened (omega arith)
