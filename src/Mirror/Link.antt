-- ===== src/Mirror/Link.antt =====
-- core/MirrorBuffer.h, the two halves over one pipe: writes and reads in any order, each of them
-- one call of `stageAndFlush` or `fillAndCopyInto` with no wrapper.
use etcs.Base.{ℕ, ◌+◌, ◌<◌, ◌≤◌, ◌≡◌, true, false, List, [], ◌∷◌, ◌++◌}
use etcs.Buffer.{TBuffer}
use etcs.Buffer.Contents.{contents}
use etcs.Buffer.TokenBounds.{InArray}
use etcs.Buffer.Tokens.{unread}
use etcs.Mirror.{WriteOutcome, ReadOutcome}
use etcs.Mirror.Pipe.{Writer, Reader, stage_and_flush, fill_and_copy_into}
use etcs.Mirror.Sending.{returned}
use etcs.Mirror.Delivery.{delivered}

-- Both halves, each with the pipe's bytes, and the payloads that writes and reads have returned.
pub record Link (m n : ℕ) : Type 0 where
  pub writer : Writer
  pub reader : Reader m n
  pub sent : List (List ℕ)
  pub received : List (List ℕ)

module _ {m n : ℕ} where
  abbrev pub write_call : List WriteOutcome → TBuffer n → Link m n → Link m n
  write_call os payload l =
      let w = (stage_and_flush os l.writer payload).1 in
      record l { writer = w; reader = record l.reader { pipe = w.pipe } }

  abbrev pub read_call : List ReadOutcome → Link m n → Link m n
  read_call os l =
      let r = (fill_and_copy_into os l.reader).1 in
      record l { reader = r; writer = record l.writer { pipe = r.pipe } }

  -- Calls that return: a write with `true`, a write that the page has no room for, a read with
  -- `true`, a read with anything else.
  pub data Step (l : Link m n) : Link m n → Type 0 where
    write_done :
        (os : List WriteOutcome) (payload : TBuffer n)
        → InArray payload
        → 9 + payload.written ≤ m
        → l.writer.page.written + 8 + payload.written ≤ l.writer.page.capacity
        → returned (stage_and_flush os l.writer payload).0 ≡ true
        → Step l (record (write_call os payload l) { sent = l.sent ++ contents payload ∷ [] })
    write_refused :
        (os : List WriteOutcome) (payload : TBuffer n)
        → InArray payload
        → l.writer.page.capacity < l.writer.page.written + 8 + payload.written
        → Step l (write_call os payload l)
    read_done :
        (os : List ReadOutcome)
        → delivered (fill_and_copy_into os l.reader).0 ≡ true
        → Step l (record (read_call os l) {
          received = l.received ++ unread (fill_and_copy_into os l.reader).1.out ∷ [];
        })
    read_missed :
        (os : List ReadOutcome)
        → delivered (fill_and_copy_into os l.reader).0 ≡ false
        → Step l (read_call os l)

  pub data Reaches (l : Link m n) : Link m n → Type 0 where
    stay : Reaches l l
    go : {a b : Link m n} → Reaches l a → Step a b → Reaches l b
