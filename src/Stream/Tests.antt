-- ===== src/Stream/Tests.antt =====
-- A stream over a ring of two slots of eight bytes.
use etcs.Base.{ℕ, ◌<◌, ◌≡◌, refl, true, false, List, [], ◌∷◌, some, none, arith}
use etcs.Buffer.{TBuffer, new}
use etcs.Buffer.Bounds.{IsValid}
use etcs.Ring.{Page, empty_slot, uint64_max, slot}
use etcs.Ring.Calls.Queue.{queue}
use etcs.Stream.{Stream, consume_all}
use etcs.Stream.Fifo
use etcs.Stream.Fifo.{Reply, wrote, delivered}
use etcs.Stream.Refine.{IsValidStream}
use etcs.Stream.Drain.{Drained, consume_all_drains}
use etcs.Stream.Runs.{Call, send, receive, run, run_refines}

abbrev fresh_page : Page 8
fresh_page = record {
  buffer = λ i. empty_slot 8;
  slot_count = 2;
  index_mask = 1;
  sequence = 0;
  publisher_cursor = uint64_max;
  consumer_cursor = 0;
  tombstoned = false;
  reader_rid = 7;
}

abbrev fresh : Stream 8
fresh = record { page = fresh_page; expected_seq = 0 }

empty_payload-IsValid : IsValid (empty_slot 8).payload
unfolding empty_slot new
empty_payload-IsValid = record {
  size = refl;
  nonempty = omega arith;
  small = omega arith;
  extent = omega arith;
  offset = omega arith;
  terminated = λ _. refl;
}

fresh-past : (s : ℕ) → (slot fresh_page s).ready ≡ true → (slot fresh_page s).sequence < 0
unfolding empty_slot
fresh-past s h = cc

fresh-IsValidStream : IsValidStream fresh
fresh-IsValidStream = record {
  quiet = record {
    geometry = record { bits = 1; count = refl; mask = refl };
    short = omega arith;
    published = refl;
    behind = omega arith;
    fits = omega arith;
    small = omega arith;
    written = λ s lo hi. absurd (omega arith);
    past = fresh-past;
  };
  sized = record { buffers = λ i. empty_payload-IsValid };
  alive = refl;
  expected = refl;
}

abbrev hello : TBuffer 8
hello = record { buf = 104 ∷ 105 ∷ 0 ∷ 0 ∷ 0 ∷ 0 ∷ 0 ∷ 0 ∷ []; written = 2; read_offset = 0 }

hello-IsValid : IsValid hello
hello-IsValid = record {
  size = refl;
  nonempty = omega arith;
  small = omega arith;
  extent = omega arith;
  offset = omega arith;
  terminated = λ _. refl;
}

abbrev script : List (Call 8)
script = send 4 hello ∷ send 5 hello ∷ send 6 hello ∷ receive ∷ receive ∷ receive ∷ []

run_refines_example :
    run fresh script
    ≡ some (
        wrote true
        ∷ wrote true
        ∷ wrote false
        ∷ delivered (some (104 ∷ 105 ∷ []))
        ∷ delivered (some (104 ∷ 105 ∷ []))
        ∷ delivered none
        ∷ [])
unfolding Fifo.run Fifo.put_entry Fifo.get_entry
run_refines_example =
    run_refines script fresh-IsValidStream (hello-IsValid, (hello-IsValid, (hello-IsValid, tt)))
      (omega arith)

consume_all_drains_example : Drained (queue fresh_page) (consume_all 3 fresh)
consume_all_drains_example = consume_all_drains 3 fresh-IsValidStream (omega arith)
