-- ===== src/Stream/Runs.antt =====
-- Whole runs of a stream against the queue.
use mathlib.Core.Option
use etcs.Base.{ℕ, ◌+◌, ◌<◌, ◌≡◌, refl, List, [], ◌∷◌, map, length, Option, some, none, arith}
use etcs.Buffer.{TBuffer}
use etcs.Buffer.Bounds.{IsValid}
use etcs.Buffer.Contents.{contents}
use etcs.Ring.{uint64_max}
use etcs.Ring.Calls.Queue.{queue}
use etcs.Stream.{Stream, write, consume}
use etcs.Stream.Fifo
use etcs.Stream.Fifo.{Op, Reply, put, get, wrote, delivered}
use etcs.Stream.Refine.{IsValidStream, write_refines, consume_refines}

-- What a client does with a stream.
pub data Call (n : ℕ) : Type 0 where
  send : ℕ → TBuffer n → Call n
  receive : Call n

module _ {n : ℕ} where
  abbrev pub op : Call n → Op
  op (send rid payload) = put rid (contents payload)
  op receive = get

  abbrev pub AllValid : List (Call n) → Type 0
  AllValid [] = Unit {0}
  AllValid (send rid payload ∷ cs) = IsValid payload × AllValid cs
  AllValid (receive ∷ cs) = AllValid cs

  pub run : Stream n → List (Call n) → Option (List Reply)
  run s [] = some []
  run s (send rid payload ∷ cs) = elim (write s rid payload) [
    | none ↦ none
    | some (done, t) ↦ Option.map (◌∷◌ (wrote done)) (run t cs)
  ]
  run s (receive ∷ cs) =
      Option.map (◌∷◌ (delivered (Option.map contents (consume s).0))) (run (consume s).1 cs)

  -- No sequence of writes and reads that stays below the last sequence number fails an assertion,
  -- and its replies are those of the queue of at most `slot_count` messages.
  pub run_refines :
      (cs : List (Call n)) {s : Stream n}
      → IsValidStream s
      → AllValid cs
      → s.page.sequence + length cs < uint64_max
      → run s cs ≡ some (Fifo.run s.page.slot_count (queue s.page) (map op cs))
  unfolding run Fifo.run
  run_refines [] v ok small = refl
  run_refines (send rid payload ∷ cs) {s} v ok small =
      let (t, e, q, w, k, m) = write_refines rid v ok.0 (omega arith) in
      ground (arith, e, q, k, run_refines cs w ok.1 (omega arith))
  run_refines (receive ∷ cs) {s} v ok small =
      let (e, q, w, k, m) = consume_refines v in
      ground (arith, e, q, k, run_refines cs w ok (omega arith))
