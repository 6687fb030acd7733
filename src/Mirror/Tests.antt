-- ===== src/Mirror/Tests.antt =====
-- Runs of the pipe's functions, and where their theorems apply.
use etcs.Base.{ℕ, ◌≡◌, refl, arith, true, false, List, [], ◌∷◌, replicate}
use etcs.Base.Memory.{memcpy}
use etcs.Buffer.{TBuffer}
use etcs.Buffer.TokenBounds.{InArray}
use etcs.Buffer.Tokens.{unread}
use etcs.Mirror.{accepts, would_block, gives, nothing_yet, WriteOutcome, ReadOutcome}
use etcs.Mirror.Frames.{le_bytes}
use etcs.Mirror.Pipe.{Writer, Reader, stage_and_flush, fill_and_copy_into}
use etcs.Mirror.Sending.{returned}
use etcs.Mirror.Staging.{IsOpen, IsWritten}
use etcs.Mirror.Writes.{outgoing, stage_and_flush-IsWritten, stage_and_flush-returned}
use etcs.Mirror.Chunks.{Awaits}
use etcs.Mirror.Delivery.{
  IsFaithful, delivered, fill_and_copy_into-IsFaithful, fill_and_copy_into-delivered,
}
use etcs.Mirror.Link.{Link, Reaches, stay, go, write_done, write_call}
use etcs.Mirror.InOrder.{Carries, Reaches-Carries}

abbrev abc : TBuffer 6
abc = record { buf = 97 ∷ 98 ∷ 99 ∷ 0 ∷ 0 ∷ 0 ∷ []; written = 3; read_offset = 0 }

abc-InArray : InArray abc
abc-InArray = record {
  size = refl;
  small = omega arith;
  extent = omega arith;
  offset = omega arith;
}

abbrev writer : Writer
writer = record {
  page = record {
    capacity = 40;
    written = 0;
    tombstoned = false;
    reader_rid = 7;
    producers_live = 0;
  };
  buffer = replicate 40 0;
  write_fd = true;
  pipe = [];
}

writer-IsOpen : IsOpen writer
writer-IsOpen = record {
  opened = refl;
  alive = refl;
  inside = omega arith;
  buffered = omega arith;
  small = omega arith;
}

-- The operating system takes four bytes, and then it would block with the caller told to stop.
abbrev cut_short : List WriteOutcome
cut_short = accepts 3 ∷ would_block true ∷ []

abbrev twelve : List WriteOutcome
twelve = would_block false ∷ replicate 12 (accepts 0)

stage_and_flush-IsWritten_example :
    IsWritten writer (outgoing writer abc) (stage_and_flush cut_short writer abc)
stage_and_flush-IsWritten_example =
    stage_and_flush-IsWritten cut_short writer-IsOpen abc-InArray (omega arith)

stage_and_flush-returned_example : returned (stage_and_flush twelve writer abc).0 ≡ true
stage_and_flush-returned_example =
    stage_and_flush-returned twelve writer-IsOpen abc-InArray (omega arith) refl (omega arith)

abbrev in_empty : TBuffer 24
in_empty = record { buf = replicate 24 0; written = 0; read_offset = 0 }

in_empty-InArray : InArray in_empty
in_empty-InArray = record {
  size = refl;
  small = omega arith;
  extent = omega arith;
  offset = omega arith;
}

-- Two frames on the pipe.
abbrev reader : Reader 24 6
reader = record {
  in_ = in_empty;
  out = abc;
  read_fd = true;
  pipe = 2 ∷ 0 ∷ 0 ∷ 0 ∷ 0 ∷ 0 ∷ 0 ∷ 0 ∷ 4 ∷ 5 ∷ 1 ∷ 0 ∷ 0 ∷ 0 ∷ 0 ∷ 0 ∷ 0 ∷ 0 ∷ 9 ∷ [];
}

abbrev nine_frame : List ℕ
nine_frame = 1 ∷ 0 ∷ 0 ∷ 0 ∷ 0 ∷ 0 ∷ 0 ∷ 0 ∷ 9 ∷ []

reader-Awaits : Awaits (4 ∷ 5 ∷ []) nine_frame reader
unfolding le_bytes
reader-Awaits = record {
  front = in_empty-InArray;
  room = abc-InArray;
  opened = refl;
  coming = refl;
}

abbrev few : List ReadOutcome
few = nothing_yet false ∷ gives 2 ∷ gives 20 ∷ []

abbrev many : List ReadOutcome
many = nothing_yet false ∷ replicate 10 (gives 0)

fill_and_copy_into-IsFaithful_example :
    IsFaithful (4 ∷ 5 ∷ []) nine_frame (fill_and_copy_into few reader)
fill_and_copy_into-IsFaithful_example =
    fill_and_copy_into-IsFaithful (4 ∷ 5 ∷ []) nine_frame (omega arith) (omega arith) few reader
      reader-Awaits

fill_and_copy_into-delivered_example : delivered (fill_and_copy_into many reader).0 ≡ true
fill_and_copy_into-delivered_example =
    fill_and_copy_into-delivered (4 ∷ 5 ∷ []) nine_frame (omega arith) (omega arith) many reader
      reader-Awaits refl (omega arith)

few_run : unread (fill_and_copy_into few reader).1.out ≡ 4 ∷ 5 ∷ []
unfolding fill_and_copy_into memcpy
few_run = refl

abbrev start : Link 24 6
start = record {
  writer = writer;
  reader = record { in_ = in_empty; out = abc; read_fd = true; pipe = [] };
  sent = [];
  received = [];
}

start-Carries : Carries [] start
start-Carries = record {
  writable = writer-IsOpen;
  flushed = refl;
  front = in_empty-InArray;
  room = abc-InArray;
  readable = refl;
  shared = refl;
  coming = refl;
  in_order = refl;
  fit = tt;
}

abbrev sent_abc : Link 24 6
sent_abc = record (write_call twelve abc start) { sent = (97 ∷ 98 ∷ 99 ∷ []) ∷ [] }

one_write : Reaches start sent_abc
one_write =
    go stay (
      write_done twelve abc abc-InArray (omega arith) (omega arith)
        stage_and_flush-returned_example)

Reaches-Carries_example : (rest : List (List ℕ)) × Carries rest sent_abc
Reaches-Carries_example = Reaches-Carries start-Carries one_write
