-- ===== src/Mirror.antt =====
-- core/MirrorBuffer.h, the two halves of a stream between entities over a pipe: what a write puts on
-- the wire and what a read takes off it. core/InterfaceWire.h, the scopes of its wrappers.
-- The operating system's `write` and `read` are lists of what the calls return, one entry a call.
pub mod Frames
pub mod Pipe
pub mod Sending
pub mod Staging
pub mod Writes
pub mod Starved
pub mod Scratch
pub mod Overwrite
pub mod Wraps
pub mod Unwrapped
pub mod Packing
pub mod Unpacked
pub mod Copies
pub mod Lifecycle
pub mod Closing
pub mod Unframed
pub mod Link
pub mod InOrder
pub mod Receiving
pub mod Chunks
pub mod Delivery
mod Tests
mod RingTests
mod WrapTests
use etcs.Base.{
  ℕ, suc, ◌+◌, ◌-◌, Bool, true, false, not, List, [], ◌∷◌, ◌++◌, ◌==◌, if◌then◌else◌, min, length,
  take, drop, bit_and,
}

-- What a call of `write` does: it takes `suc k` bytes, or all where there are fewer; it would block,
-- with the caller's signals telling it to stop or not; it fails.
pub data WriteOutcome : Type 0 where
  accepts : ℕ → WriteOutcome
  would_block : Bool → WriteOutcome
  fails : WriteOutcome

-- What a call of `read` does: it gives `suc k` bytes, or as many as there are and as there is space;
-- it would block; the other end is closed; it fails. A pipe with no bytes would block.
pub data ReadOutcome : Type 0 where
  gives : ℕ → ReadOutcome
  nothing_yet : Bool → ReadOutcome
  end_of_file : ReadOutcome
  read_error : ReadOutcome

pub data ReadResult : Type 0 where
  bytes : List ℕ → List ℕ → ReadResult
  again : Bool → ReadResult
  eof : ReadResult
  error : ReadResult

-- What `read` returns for a request of `space` bytes: the bytes and the pipe behind them.
unfoldable pub read_some : List ℕ → ℕ → ℕ → ReadResult
read_some [] space k = again false
read_some (c ∷ cs) space k = let n = min (suc k) space in bytes (take n (c ∷ cs)) (drop n (c ∷ cs))

unfoldable pub read_pipe : List ℕ → ℕ → ReadOutcome → ReadResult
unfolding read_some
read_pipe pipe space (gives k) = read_some pipe space k
read_pipe pipe space (nothing_yet stop) = again stop
read_pipe pipe space end_of_file = eof
read_pipe pipe space read_error = error

pub data ActiveStrategy : Type 0 where
  lmax pipe socket : ActiveStrategy

-- `WireScope`, by its value
pub data WireScope : Type 0 where
  nowhere only_lmax only_pipe only_socket network_only all : WireScope

unfoldable pub scope_bits : WireScope → ℕ
scope_bits nowhere = 0
scope_bits only_lmax = 1
scope_bits only_pipe = 2
scope_bits only_socket = 4
scope_bits network_only = 6
scope_bits all = 7

unfoldable pub current_scope_bit : ActiveStrategy → WireScope
current_scope_bit lmax = only_lmax
current_scope_bit pipe = only_pipe
current_scope_bit socket = only_socket

unfoldable pub scope_applies : WireScope → WireScope → Bool
unfolding scope_bits
scope_applies stage_scope active = not (bit_and (scope_bits stage_scope) (scope_bits active) == 0)
