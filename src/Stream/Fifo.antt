-- ===== src/Stream/Fifo.antt =====
-- The abstract stream: a queue of at most `cap` messages, oldest first.
use etcs.Base.{
  ℕ, Bool, true, false, Option, none, some, List, [], ◌∷◌, ◌++◌, length, leb, if◌then◌else◌,
}
use etcs.Ring.Calls.Queue.{Entry}

pub data Op : Type 0 where
  put : ℕ → List ℕ → Op
  get : Op

-- What a call tells its caller: whether a message was taken, or the bytes that were delivered.
pub data Reply : Type 0 where
  wrote : Bool → Reply
  delivered : Option (List ℕ) → Reply

unfoldable pub put_entry : ℕ → List Entry → Entry → Bool × List Entry
put_entry cap q e = if leb cap (length q) then (false, q) else (true, q ++ e ∷ [])

unfoldable pub get_entry : List Entry → Option (List ℕ) × List Entry
get_entry [] = (none, [])
get_entry ((rid, bytes) ∷ q) = (some bytes, q)

unfoldable pub run : ℕ → List Entry → List Op → List Reply
run cap q [] = []
run cap q (put rid bytes ∷ ops) =
    let (done, q') = put_entry cap q (rid, bytes) in wrote done ∷ run cap q' ops
run cap q (get ∷ ops) = let (out, q') = get_entry q in delivered out ∷ run cap q' ops
