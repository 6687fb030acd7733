-- ===== src/Stream/Drain.antt =====
-- `consumeAll` takes what is queued, all of it and in order.
use etcs.Base.{ℕ, zero, suc, ◌<◌, ◌≡◌, refl, ap, ◌∙◌, List, [], ◌∷◌, map, length, arith}
use etcs.Buffer.{TBuffer}
use etcs.Buffer.Contents.{contents}
use etcs.Ring.Calls.Queue.{Entry, queue, length-queue}
use etcs.Stream.{Stream, consume_all}
use etcs.Stream.Fifo.{get_entry}
use etcs.Stream.Refine.{IsValidStream, consume_refines}

-- The bytes of an entry.
abbrev pub bytes_of : Entry → List ℕ
bytes_of (rid, bytes) = bytes

pub record Drained {n : ℕ} (q : List Entry) (r : ℕ × List (TBuffer n) × Stream n) : Type 0 where
  pub count : r.0 ≡ length q
  pub delivered : map contents r.1 ≡ map bytes_of q
  pub empty : queue r.2.page ≡ []
  pub valid : IsValidStream r.2

module _ {n : ℕ} where
  consume_all-Drained :
      (q : List Entry) (fuel : ℕ) {s : Stream n}
      → IsValidStream s
      → queue s.page ≡ q
      → length q < fuel
      → Drained q (consume_all fuel s)
  unfolding consume_all get_entry
  consume_all-Drained q zero v e h = absurd (omega arith)
  consume_all-Drained [] (suc fuel) {s} v e h = let c = consume_refines v in ground (arith, c, e)
  consume_all-Drained ((rid, bytes) ∷ q) (suc fuel) {s} v e h =
      let (out, rest, w, k, m) = consume_refines v in
      let ih = consume_all-Drained q fuel w (rest ∙ ap (λ x. (get_entry x).1) e) (omega arith) in
      ground (arith, out, e, ih)

  -- With more rounds than the ring has slots, `consumeAll` ends because nothing is left: it has
  -- delivered every queued message, in order, and counted them.
  pub consume_all_drains :
      (fuel : ℕ) {s : Stream n}
      → IsValidStream s
      → s.page.slot_count < fuel
      → Drained (queue s.page) (consume_all fuel s)
  consume_all_drains fuel {s} v h =
      consume_all-Drained (queue s.page) fuel v refl
        (omega (arith, length-queue s.page, v.quiet.fits))
