-- ===== src/Mirror/Unframed.antt =====
-- core/MirrorBuffer.h, `flush`, `fill` and `hasData` over a pipe: the streams of tokens, which have no
-- frames.
use etcs.Base.{
  ℕ, suc, ◌-◌, ◌<◌, ◌≡◌, refl, sym, ap, ◌∙◌, Bool, true, false, not, List, [], ◌∷◌, ◌++◌, Option,
  none, some, ltb, ◌==◌, if◌then◌else◌, length, take, drop, set, min, arith, ap₂, ◌^◌, length-take,
  length-set, take-append-drop,
}
use etcs.Base.Memory.{memcpy, sub_size, take-memcpy, take-set_above}
use etcs.Buffer.{TBuffer, reset}
use etcs.Buffer.Bounds.{IsValid}
use etcs.Buffer.Contents.{contents}
use etcs.Buffer.Tokens.{unread}
use etcs.Mirror.{
  WriteOutcome, accepts, would_block, fails, ReadOutcome, ReadResult, bytes, again, eof, error,
  read_pipe, read_some, gives, nothing_yet, end_of_file, read_error,
}
use etcs.Mirror.Receiving.{drop-nothing}

-- The buffers of a half, whether its descriptors are open, and the bytes on each pipe.
pub record Tokens (m : ℕ) : Type 0 where
  pub in_ : TBuffer m
  pub out_ : TBuffer m
  pub read_fd : Bool
  pub write_fd : Bool
  pub incoming : List ℕ
  pub outgoing : List ℕ

module _ {m : ℕ} where
  -- A write that took `n` bytes; `out_` is reset whatever is left of it.
  unfoldable pub send_bytes : Tokens m → ℕ → Tokens m
  unfolding reset
  send_bytes t n = record t { out_ = reset t.out_; outgoing = t.outgoing ++ take n t.out_.buf }

  unfoldable pub flush_call : List WriteOutcome → Tokens m → Option Bool × Tokens m
  unfolding send_bytes
  flush_call [] t = (none, t)
  flush_call (accepts k ∷ os) t = (some true, send_bytes t (min (suc k) t.out_.written))
  flush_call (would_block stop ∷ os) t =
      let rest = flush_call os t in if stop then (some false, t) else rest
  flush_call (fails ∷ os) t = (some false, t)

  unfoldable pub flush : List WriteOutcome → Tokens m → Option Bool × Tokens m
  unfolding flush_call
  flush os t =
      if not t.write_fd
      then (some false, t)
      else if t.out_.written == 0
      then (some true, t)
      else flush_call os t

  -- `in_` with the bytes of one call of `read`.
  unfoldable pub refill : Tokens m → List ℕ → List ℕ → Tokens m
  refill t cs pipe = record t {
    in_ = record t.in_ { buf = set (memcpy t.in_.buf 0 cs) (length cs) 0; written = length cs };
    incoming = pipe;
  }

  unfoldable pub emptied_in : Tokens m → Tokens m
  unfolding reset
  emptied_in t = record t { in_ = reset t.in_ }

  unfoldable pub fill_round :
      (Tokens m → Option Bool × Tokens m) → Tokens m → ReadResult → Option Bool × Tokens m
  unfolding refill
  fill_round next t (bytes cs pipe) = (some true, refill t cs pipe)
  fill_round next t (again stop) = if stop then (some false, t) else next t
  fill_round next t eof = (some false, t)
  fill_round next t error = (some false, t)

  unfoldable pub fill_call : List ReadOutcome → Tokens m → Option Bool × Tokens m
  unfolding emptied_in fill_round
  fill_call [] t = (none, emptied_in t)
  fill_call (o ∷ os) t =
      fill_round (fill_call os) (emptied_in t) (read_pipe t.incoming (sub_size m 1) o)

  unfoldable pub fill_tokens : List ReadOutcome → Tokens m → Option Bool × Tokens m
  unfolding fill_call
  fill_tokens os t = if not t.read_fd then (some false, t) else fill_call os t

  -- What `hasData` does with what its one call of `read` returned.
  unfoldable pub has_bytes : Tokens m → ReadResult → Bool × Tokens m
  unfolding refill
  has_bytes t (bytes cs pipe) = (true, refill t cs pipe)
  has_bytes t (again stop) = (false, t)
  has_bytes t eof = (false, t)
  has_bytes t error = (false, t)

  unfoldable pub has_data : ReadOutcome → Tokens m → Bool × Tokens m
  unfolding has_bytes emptied_in
  has_data o t =
      if not t.read_fd
      then (false, t)
      else if ltb t.in_.read_offset t.in_.written
      then (true, t)
      else has_bytes (emptied_in t) (read_pipe t.incoming (sub_size m 1) o)

  -- A write that takes fewer bytes than `out_` holds loses the others: `true` is returned, the pipe
  -- has the first of them, and `out_` is empty.
  flush_drops :
      (k : ℕ) (os : List WriteOutcome) (t : Tokens m)
      → t.write_fd ≡ true
      → suc k < t.out_.written
      → ((flush (accepts k ∷ os) t).0 ≡ some true)
        × ((flush (accepts k ∷ os) t).1.outgoing ≡ t.outgoing ++ take (suc k) t.out_.buf)
        × (contents (flush (accepts k ∷ os) t).1.out_ ≡ [])
  unfolding flush flush_call send_bytes reset
  flush_drops k os t opened few = ground (arith, opened, few)

  -- What is still to be read.
  abbrev pub to_come : Tokens m → List ℕ
  to_come t = unread t.in_ ++ t.incoming

  refill_lem :
      (t : Tokens m) (cs pipe : List ℕ)
      → length t.in_.buf ≡ m
      → t.in_.read_offset ≡ 0
      → length cs < m
      → to_come (refill t cs pipe) ≡ cs ++ pipe
  unfolding refill
  refill_lem t cs pipe size start few = ground (
    arith,
    size,
    start,
    take-memcpy t.in_.buf 0 cs,
    take-set_above (memcpy t.in_.buf 0 cs) (length cs) (length cs) 0,
  )

  has_bytes_lem :
      (o : ReadOutcome) (t : Tokens m) (pipe : List ℕ)
      → t.incoming ≡ pipe
      → length t.in_.buf ≡ m
      → t.in_.read_offset ≡ 0
      → unread t.in_ ≡ []
      → 0 < m
      → m < 2 ^ 63
      → to_come (has_bytes t (read_pipe pipe (sub_size m 1) o)).1 ≡ pipe
  unfolding has_bytes read_pipe read_some
  has_bytes_lem (gives k) t [] same size start nothing pos small = ap₂ (λ a b. a ++ b) nothing same
  has_bytes_lem (gives k) t (c ∷ cs) same size start nothing pos small =
      let j = min (suc k) (sub_size m 1) in
      let e : sub_size m 1 ≡ m - 1 = ground arith in
      refill_lem t (take j (c ∷ cs)) (drop j (c ∷ cs)) size start
        (omega (arith, length-take j (c ∷ cs), e))
      ∙ take-append-drop j (c ∷ cs)
  has_bytes_lem (nothing_yet stop) t pipe same size start nothing pos small =
      ap₂ (λ a b. a ++ b) nothing same
  has_bytes_lem end_of_file t pipe same size start nothing pos small =
      ap₂ (λ a b. a ++ b) nothing same
  has_bytes_lem read_error t pipe same size start nothing pos small =
      ap₂ (λ a b. a ++ b) nothing same

  emptied_lem :
      (t : Tokens m)
      → (length (emptied_in t).in_.buf ≡ length t.in_.buf)
        × ((emptied_in t).in_.read_offset ≡ 0)
        × (unread (emptied_in t).in_ ≡ [])
        × ((emptied_in t).incoming ≡ t.incoming)
  unfolding emptied_in reset
  emptied_lem t = ground (arith, length-set t.in_.buf 0 0)

  -- Bytes that the pipe gives stand unread in `in_`, where nothing was unread, and none is lost.
  has_data-to_come :
      (o : ReadOutcome) (t : Tokens m) → IsValid t.in_ → to_come (has_data o t).1 ≡ to_come t
  unfolding has_data
  has_data-to_come o t v = choose t.read_fd (ltb t.in_.read_offset t.in_.written) refl
    where
      tried : Bool × Tokens m
      tried = has_bytes (emptied_in t) (read_pipe t.incoming (sub_size m 1) o)

      choose :
          (open_fd more : Bool)
          → ltb t.in_.read_offset t.in_.written ≡ more
          → to_come (if not open_fd then (false, t) else if more then (true, t) else tried).1
            ≡ to_come t
      choose false more e = refl
      choose true true e = refl
      choose true false e =
          let z = emptied_lem t in
          let nothing : unread t.in_ ≡ [] =
            drop-nothing t.in_.read_offset t.in_.written t.in_.buf (ground (arith, e)) in
          has_bytes_lem o (emptied_in t) t.incoming z.3 (z.0 ∙ v.size) z.1 z.2 v.nonempty v.small
          ∙ ap (λ u. u ++ t.incoming) (sym nothing)
