-- ===== src/Mirror/Wraps.antt =====
-- core/MirrorBuffer.h, `writeRaw` and `readRaw` over a pipe, with the wrappers of the pair's chain.
-- A wrapper's calls are parameters: what `IWireWrapper` does to the payload.
use etcs.Base.{
  ℕ, Bool, true, false, not, List, [], ◌∷◌, Option, none, some, ltb, if◌then◌else◌, take, ◌==◌,
}
use etcs.Buffer.{TBuffer, new, reset, write_raw}
use etcs.Mirror.{WriteOutcome, ReadOutcome}
use etcs.Mirror.Pipe.{Writer, Reader, stage_and_flush, fill_and_copy_into}

-- `IWireWrapper`; its context is left to the functions.
pub record IWireWrapper (m : ℕ) : Type 0 where
  pub wrap : TBuffer m → TBuffer m
  pub unwrap : TBuffer m → TBuffer m
  pub close : TBuffer m → TBuffer m

-- What a half knows of its pair: which half it is, and `wrap_chain_`.
pub record WrapChain (m : ℕ) : Type 0 where
  pub is_producer : Bool
  pub wrap_chain : List (IWireWrapper m)

unfoldable pub direction_allows : {m : ℕ} → WrapChain m → Bool → Bool
direction_allows c want_producer = if want_producer then c.is_producer else not c.is_producer

module _ {m : ℕ} where
  unfoldable pub wrap_all : List (IWireWrapper m) → TBuffer m → TBuffer m
  wrap_all [] b = b
  wrap_all (w ∷ ws) b = wrap_all ws (w.wrap b)

  -- From the last wrapper to the first.
  unfoldable pub unwrap_all : List (IWireWrapper m) → TBuffer m → TBuffer m
  unwrap_all [] b = b
  unwrap_all (w ∷ ws) b = w.unwrap (unwrap_all ws b)

  -- `staged.writeRaw(slot.buf, slot.written)` on a new buffer.
  unfoldable pub stage_copy : {n : ℕ} → TBuffer n → TBuffer m
  unfolding new write_raw
  stage_copy slot = (write_raw (new m) (take slot.written slot.buf)).1

module _ {m n : ℕ} where
  unfoldable pub write_through :
      List WriteOutcome → Bool → List (IWireWrapper m) → Writer → TBuffer n → Option Bool × Writer
  unfolding stage_and_flush wrap_all stage_copy
  write_through os allowed [] w slot = stage_and_flush os w slot
  write_through os allowed (s ∷ ss) w slot =
      if not allowed
      then (some false, w)
      else stage_and_flush os w (wrap_all (s ∷ ss) (stage_copy slot))

  -- `writeRaw` on a half that is active over a pipe or a socket.
  unfoldable pub write_raw_pipe :
      List WriteOutcome → WrapChain m → Writer → TBuffer n → Option Bool × Writer
  unfolding write_through direction_allows
  write_raw_pipe os c w slot = write_through os (direction_allows c true) c.wrap_chain w slot

  -- What `readRaw` does with a frame once it is there.
  unfoldable pub unwrap_into : List (IWireWrapper m) → TBuffer m → TBuffer n → Bool × TBuffer n
  unfolding unwrap_all reset write_raw
  unwrap_into ws frame slot =
      let u = unwrap_all ws frame in
      if ltb n u.written
      then (false, slot)
      else (true, (write_raw (reset slot) (take u.written u.buf)).1)

  -- The reader's side without a slot of its own, and the slot that the caller gives.
  unfoldable pub after_fill :
      List (IWireWrapper m)
      → TBuffer n
      → Option Bool × Reader m m × List ReadOutcome
      → Option Bool × TBuffer n × Reader m m
  unfolding unwrap_into
  after_fill ws slot (some true, r, os) = let u = unwrap_into ws r.out slot in (some u.0, u.1, r)
  after_fill ws slot (some false, r, os) = (some false, slot, r)
  after_fill ws slot (none, r, os) = (none, slot, r)

  -- The reader's side with the caller's slot to fill, and both apart again.
  abbrev pub into_slot : Reader m m → TBuffer n → Reader m n
  into_slot r slot = record { in_ = r.in_; out = slot; read_fd = r.read_fd; pipe = r.pipe }

  abbrev pub out_of_slot :
      Reader m m
      → Option Bool × Reader m n × List ReadOutcome
      → Option Bool × TBuffer n × Reader m m
  out_of_slot r (result, r', os) =
      (result, r'.out, record r { in_ = r'.in_; read_fd = r'.read_fd; pipe = r'.pipe })

  -- Without a chain the frame goes into the slot, with one into a new buffer first.
  unfoldable pub read_through :
      List ReadOutcome
      → Bool
      → List (IWireWrapper m)
      → Reader m m
      → TBuffer n
      → Option Bool × TBuffer n × Reader m m
  unfolding after_fill fill_and_copy_into new
  read_through os allowed [] r slot = out_of_slot r (fill_and_copy_into os (into_slot r slot))
  read_through os allowed (w ∷ ws) r slot =
      if not allowed
      then (some false, slot, r)
      else after_fill (w ∷ ws) slot (fill_and_copy_into os (record r { out = new m }))

  -- `readRaw` on a half that is active over a pipe or a socket.
  unfoldable pub read_raw_pipe :
      List ReadOutcome → WrapChain m → Reader m m → TBuffer n → Option Bool × TBuffer n × Reader m m
  unfolding read_through direction_allows
  read_raw_pipe os c r slot = read_through os (direction_allows c false) c.wrap_chain r slot

module _ {m : ℕ} where
  -- The payloads that `closeWrite` emits before it closes: what each wrapper gives at its end, in a
  -- new buffer, through the wrappers behind it.
  unfoldable pub tails : List (IWireWrapper m) → List (TBuffer m)
  unfolding wrap_all new
  tails [] = []
  tails (w ∷ ws) =
      let rest = tails ws in
      let tail = w.close (new m) in if tail.written == 0 then rest else wrap_all ws tail ∷ rest
