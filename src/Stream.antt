-- ===== src/Stream.antt =====
-- core/LMAXStream.h, the owner of a ring: it keeps the sequence number that the consumer expects. The
-- callback of a consuming call receives the buffer that the call returns. The calls that spin until
-- another thread has acted are not modelled.
pub mod Fifo
pub mod Refine
pub mod Runs
pub mod Drain
pub mod Tests
use etcs.Base.{ℕ, zero, suc, Bool, not, Option, none, some, List, [], ◌∷◌, ◌==◌}
use etcs.Base.Memory.{add_size}
use etcs.Buffer.{TBuffer}
use etcs.Ring.{Page, uint64_max}
use etcs.Ring.Calls
use etcs.Ring.Calls.{acquire_read, mark_consumed}

pub record Stream (n : ℕ) : Type 0 where
  pub page : Page n
  pub expected_seq : ℕ

module _ {n : ℕ} where
  unfoldable pub reset : Stream n → Option (Stream n)
  reset s = elim (Calls.reset s.page) [
    | none ↦ none
    | some p ↦ some (record { page = p; expected_seq = 0 })
  ]

  -- `~LMAXStream`
  unfoldable pub close : Stream n → Stream n
  close s = record s { page = Calls.tombstone s.page }

  -- Whether the ring took the payload.
  unfoldable pub write : Stream n → ℕ → TBuffer n → Option (Bool × Stream n)
  write s rid payload = elim (Calls.write s.page rid payload) [
    | none ↦ none
    | some (seq, p) ↦ some (not (seq == uint64_max), record s { page = p })
  ]

  unfoldable pub consume : Stream n → Option (TBuffer n) × Stream n
  consume s = elim (acquire_read s.page s.expected_seq) [
    | none ↦ (none, s)
    | some buf ↦ (
      some buf,
      record {
        page = mark_consumed s.page s.expected_seq;
        expected_seq = add_size s.expected_seq 1;
      },
    )
  ]

  -- `consumeAll` in at most `fuel` rounds: the count, what was delivered, and the stream.
  unfoldable pub consume_all : ℕ → Stream n → ℕ × List (TBuffer n) × Stream n
  consume_all zero s = (0, [], s)
  consume_all (suc fuel) s =
      let (out, t) = consume s in
      elim out [
        | none ↦ (0, [], t)
        | some buf ↦ let (count, bufs, u) = consume_all fuel t in (suc count, buf ∷ bufs, u)
      ]

  unfoldable pub is_full : Stream n → Bool
  is_full s = Calls.is_full s.page

  unfoldable pub frames_written : Stream n → ℕ
  frames_written s = s.page.sequence

  unfoldable pub frames_consumed : Stream n → ℕ
  frames_consumed s = s.expected_seq
