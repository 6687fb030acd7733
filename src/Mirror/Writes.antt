-- ===== src/Mirror/Writes.antt =====
-- core/MirrorBuffer.h, `stageAndFlush`: a payload becomes a frame on the pipe, behind whatever the
-- staging page still holds.
use etcs.Base.{
  ℕ, ◌+◌, ◌<◌, ◌≤◌, ◌≡◌, sym, subst, ap, ◌∙◌, true, false, List, ◌++◌, some, length, arith,
  length-take,
}
use etcs.Base.Memory.{add_size}
use etcs.Buffer.{TBuffer}
use etcs.Buffer.Contents.{contents}
use etcs.Buffer.TokenBounds.{InArray}
use etcs.Shared.{acquire_write}
use etcs.Mirror.{WriteOutcome}
use etcs.Mirror.Frames.{frame}
use etcs.Mirror.Pipe.{Writer, flush_loop, stage_at, stage_and_flush}
use etcs.Mirror.Sending.{returned, is_patient, accepted, flush_loop_lem}
use etcs.Mirror.Staging.{
  IsOpen, IsWritten, staged, staged_bytes, staging, refused, flushed-IsWritten,
}

-- The bytes of a payload behind what the page holds.
abbrev pub outgoing : {n : ℕ} → Writer → TBuffer n → List ℕ
outgoing w payload = staged_bytes w ++ frame (contents payload)

pub size_lem :
    {n : ℕ} {payload : TBuffer n} → InArray payload → length (contents payload) ≡ payload.written
size_lem {payload} p = omega (arith, length-take payload.written payload.buf, p.size, p.extent)

module _ {n : ℕ} {w : Writer} {payload : TBuffer n} where
  staging_lem :
      (os : List WriteOutcome) (v : IsOpen w) (p : InArray payload)
      → w.page.written + 8 + payload.written ≤ w.page.capacity
      → stage_and_flush os w payload
        ≡ flush_loop os
            (w.page.written + (8 + length (contents payload)))
            (staged w (contents payload))
            0
  unfolding stage_and_flush
  staging_lem os v p room =
      ap (λ k. stage_at os w (contents payload) (acquire_write w.page (add_size 8 k)))
        (sym (size_lem p))
      ∙ staging w (contents payload) v os (omega (arith, size_lem p))

  -- A write to an open pipe, with room on the page for the frame, returns `true` with what the page
  -- held and the frame behind it on the pipe and an empty page, or else has put a proper part of that
  -- on the pipe and left all of it on the page; so the next write begins with it once more.
  pub stage_and_flush-IsWritten :
      (os : List WriteOutcome)
      → IsOpen w
      → InArray payload
      → w.page.written + 8 + payload.written ≤ w.page.capacity
      → IsWritten w (outgoing w payload) (stage_and_flush os w payload)
  stage_and_flush-IsWritten os v p room =
      let f = contents payload in
      let room' : w.page.written + (8 + length f) ≤ w.page.capacity = omega (arith, size_lem p) in
      subst (IsWritten w (outgoing w payload)) (sym (staging_lem os v p room)) (
        flushed-IsWritten w f v room'
          (flush_loop os (w.page.written + (8 + length f)) (staged w f) 0)
          (flush_loop_lem (staged w f) (w.page.written + (8 + length f)) os).0)

  -- A write to an open pipe, with room on the page for the frame, returns `true` where no call of the
  -- operating system fails or tells it to stop, and there are as many that take bytes as there
  -- are bytes.
  pub stage_and_flush-returned :
      (os : List WriteOutcome)
      → IsOpen w
      → InArray payload
      → w.page.written + 8 + payload.written ≤ w.page.capacity
      → is_patient os ≡ true
      → w.page.written + 8 + payload.written ≤ accepted os
      → returned (stage_and_flush os w payload).0 ≡ true
  stage_and_flush-returned os v p room calm many =
      let f = contents payload in
      ap (λ r. returned r.0) (staging_lem os v p room)
      ∙ (flush_loop_lem (staged w f) (w.page.written + (8 + length f)) os).1 calm
          (omega (arith, size_lem p))

  -- Without the room it returns `false` and nothing has changed.
  pub stage_and_flush-refused :
      (os : List WriteOutcome)
      → IsOpen w
      → InArray payload
      → w.page.capacity < w.page.written + 8 + payload.written
      → stage_and_flush os w payload ≡ (some false, w)
  unfolding stage_and_flush stage_at
  stage_and_flush-refused os v p room =
      let f = contents payload in
      ap (λ k. stage_at os w f (acquire_write w.page (add_size 8 k))) (sym (size_lem p))
      ∙ ap (stage_at os w f)
          (refused w f v (omega (arith, size_lem p)) (omega (arith, size_lem p, p.extent, p.small)))
