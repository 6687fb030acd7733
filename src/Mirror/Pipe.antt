-- ===== src/Mirror/Pipe.antt =====
-- core/MirrorBuffer.h, the pipe: staging a payload and flushing it, and taking frames off the wire.
use etcs.Base.{
  ℕ, suc, ◌+◌, ◌-◌, Bool, true, false, not, ◌&&◌, List, [], ◌∷◌, ◌++◌, Option, none, some, ltb, leb,
  ◌==◌, if◌then◌else◌, min, length, take, drop, set,
}
use etcs.Base.Memory.{add_size, sub_size, memcpy}
use etcs.Buffer.{TBuffer, reset}
use etcs.Shared.{SharedPage, acquire_write}
use etcs.Shared
use etcs.Mirror.{
  WriteOutcome, accepts, would_block, fails, ReadOutcome, ReadResult, bytes, again, eof, error,
  read_pipe,
}
use etcs.Mirror.Frames.{le_bytes, read_le}

-- The writer's side: the staging page with the bytes of its buffer, whether `write_fd_` is open,
-- and the bytes that the pipe holds.
pub record Writer : Type 0 where
  pub page : SharedPage
  pub buffer : List ℕ
  pub write_fd : Bool
  pub pipe : List ℕ

-- `sent` more bytes of the staging page are on the pipe.
unfoldable pub push_bytes : Writer → ℕ → ℕ → Writer
push_bytes w sent n = record w { pipe = w.pipe ++ take n (drop sent w.buffer) }

unfoldable pub reset_page : Writer → Writer
unfolding Shared.reset
reset_page w = record w { page = Shared.reset w.page }

-- One round of the loop of `flushStaged`, with the next round for the bytes that are then sent.
unfoldable pub flush_round :
    (Writer → ℕ → Option Bool × Writer) → WriteOutcome → Writer → ℕ → ℕ → Option Bool × Writer
unfolding push_bytes
flush_round next (accepts k) w sent total =
    let n = min (suc k) (total - sent) in next (push_bytes w sent n) (sent + n)
flush_round next (would_block stop) w sent total = if stop then (some false, w) else next w sent
flush_round next fails w sent total = (some false, w)

-- The loop, with `none` where it waits for a further call to return.
unfoldable pub flush_loop : List WriteOutcome → ℕ → Writer → ℕ → Option Bool × Writer
unfolding flush_round reset_page
flush_loop [] total w sent = if ltb sent total then (none, w) else (some true, reset_page w)
flush_loop (o ∷ os) total w sent =
    if ltb sent total
    then flush_round (flush_loop os total) o w sent total
    else (some true, reset_page w)

unfoldable pub flush_staged : List WriteOutcome → Writer → Option Bool × Writer
unfolding flush_loop
flush_staged os w =
    if not w.write_fd
    then (some false, w)
    else if w.page.written == 0
    then (some true, w)
    else flush_loop os w.page.written w 0

-- The two copies into the region at an address of the page's buffer.
unfoldable pub store_frame : List ℕ → ℕ → List ℕ → List ℕ
store_frame buffer dest payload =
    memcpy (memcpy buffer dest (le_bytes 8 (length payload))) (dest + 8) payload

unfoldable pub stage_at :
    List WriteOutcome → Writer → List ℕ → Option ℕ × SharedPage → Option Bool × Writer
unfolding store_frame flush_staged
stage_at os w payload (none, page) = (some false, record w { page = page })
stage_at os w payload (some dest, page) =
    flush_staged os (record w { page = page; buffer = store_frame w.buffer dest payload })

module _ {n : ℕ} where
  unfoldable pub stage_and_flush : List WriteOutcome → Writer → TBuffer n → Option Bool × Writer
  unfolding stage_at acquire_write
  stage_and_flush os w payload =
      stage_at os w (take payload.written payload.buf)
        (acquire_write w.page (add_size 8 payload.written))

module _ {m n : ℕ} where
  -- `tryExtractInto`, with `in_` and `out` after it.
  unfoldable pub try_extract_into : TBuffer m → TBuffer n → Bool × TBuffer m × TBuffer n
  unfolding reset read_le
  try_extract_into in_ out =
      let len = read_le (take 8 (drop in_.read_offset in_.buf)) in
      let body = add_size in_.read_offset 8 in
      let behind = record in_ { read_offset = add_size body len } in
      if ltb in_.written (add_size in_.read_offset 8)
      then (false, in_, out)
      else if ltb in_.written (add_size body len)
      then (false, record in_ { read_offset = sub_size body 8 }, out)
      else if ltb n len
      then (false, behind, reset out)
      else let fresh = reset out in
        (
          true,
          behind,
          if ltb 0 len
              then record fresh {
                buf = memcpy fresh.buf 0 (take len (drop body in_.buf));
                written = len;
              }
              else fresh,
        )

-- The reader's side: its buffers, whether `read_fd_` is open, and the bytes that the pipe holds.
pub record Reader (m n : ℕ) : Type 0 where
  pub in_ : TBuffer m
  pub out : TBuffer n
  pub read_fd : Bool
  pub pipe : List ℕ

module _ {m : ℕ} where
  -- `memmove` of the unread bytes to the front of `in_`, or its reset where there are none.
  unfoldable pub compact : TBuffer m → TBuffer m
  unfolding reset
  compact in_ =
      if ltb 0 in_.read_offset && ltb in_.read_offset in_.written
      then (let remaining = sub_size in_.written in_.read_offset in
          record in_ {
            buf = memcpy in_.buf 0 (take remaining (drop in_.read_offset in_.buf));
            written = remaining;
            read_offset = 0;
          })
      else if leb in_.written in_.read_offset
      then reset in_
      else in_

  -- The bytes that `read` has put behind `written`, counted and terminated.
  unfoldable pub receive_bytes : TBuffer m → List ℕ → TBuffer m
  receive_bytes in_ cs =
      let written = add_size in_.written (length cs) in
      record in_ { buf = set (memcpy in_.buf in_.written cs) written 0; written = written }

  abbrev pub space : TBuffer m → ℕ
  space in_ = sub_size (sub_size m 1) in_.written

module _ {m n : ℕ} where
  -- `tryExtractInto(out)` on the reader.
  unfoldable pub extract : Reader m n → Bool × Reader m n
  unfolding try_extract_into
  extract r = let t = try_extract_into r.in_ r.out in (t.0, record r { in_ = t.1; out = t.2 })

  -- What the loop of `fillAndCopyInto` does with what `read` returned.
  unfoldable pub after_read :
      (Reader m n → Option Bool × Reader m n × List ReadOutcome)
      → List ReadOutcome
      → Reader m n
      → ReadResult
      → Option Bool × Reader m n × List ReadOutcome
  unfolding extract receive_bytes
  after_read next os r (bytes cs pipe) =
      let (found, r') = extract (record r { in_ = receive_bytes r.in_ cs; pipe = pipe }) in
      if found then (some true, r', os) else next r'
  after_read next os r (again stop) = if stop then (some false, r, os) else next r
  after_read next os r eof = (some false, r, os)
  after_read next os r error = (some false, r, os)

  unfoldable pub compacted : Reader m n → Reader m n
  unfolding compact
  compacted r = record r { in_ = compact r.in_ }

  -- The loop, with `none` where it waits for a further call to return, and with the calls that
  -- have not been made.
  unfoldable pub fill_loop :
      List ReadOutcome → Reader m n → Option Bool × Reader m n × List ReadOutcome
  unfolding compacted after_read read_pipe
  fill_loop [] r =
      if space (compacted r).in_ == 0
      then (some false, compacted r, [])
      else (none, compacted r, [])
  fill_loop (o ∷ os) r =
      if space (compacted r).in_ == 0
      then (some false, compacted r, o ∷ os)
      else after_read (fill_loop os) os (compacted r)
          (read_pipe (compacted r).pipe (space (compacted r).in_) o)

  unfoldable pub fill_and_copy_into :
      List ReadOutcome → Reader m n → Option Bool × Reader m n × List ReadOutcome
  unfolding extract fill_loop
  fill_and_copy_into os r =
      let (found, r') = extract r in
      if found
      then (some true, r', os)
      else if not r'.read_fd
      then (some false, r', os)
      else fill_loop os r'
