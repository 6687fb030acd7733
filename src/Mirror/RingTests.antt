-- ===== src/Mirror/RingTests.antt =====
-- A ring with one payload under way, halves that are packed, and a pair that is closed: where the
-- theorems apply.
use etcs.Base.{
  some, List, ℕ, zero, suc, ◌+◌, ◌-◌, ◌<◌, ◌≤◌, ◌≡◌, refl, arith, true, false, [], ◌∷◌, none, ◌^◌,
}
use etcs.Buffer.{TBuffer, new}
use etcs.Buffer.Bounds.{new-IsValid}
use etcs.Buffer.Numbers.{pos, negsuc, digits}
use etcs.Ring.{Page}
use etcs.Mirror.Scratch.{RingHalf, returns, emit_wrapped, under_way}
use etcs.Mirror.Overwrite.{InStep, emit_wrapped-overwrites}
use etcs.Mirror.{pipe}
use etcs.Mirror.Lifecycle.{PairHalf, PairState, make_pipe_pair, teardown_pipe_pair}
use etcs.Mirror.Closing.{
  Closing, producer_closes_write, consumer_closes_read, close_some, count_fd, teardown-close_some,
}
use etcs.Mirror.Packing.{Half, unpack, pack}
use etcs.Mirror.Copies.{IsPackable, IsCopy, unpack-pack}

-- A ring of as many slots, with the first number written and not yet consumed.
abbrev one_written : ℕ → Page 8
one_written slots = record {
  buffer =
      λ i. record { sequence = 0; writer_rid = 5; payload_size = 0; ready = true; payload = new 8 };
  slot_count = slots;
  index_mask = slots - 1;
  sequence = 1;
  publisher_cursor = 0;
  consumer_cursor = 0;
  tombstoned = false;
  reader_rid = 7;
}

abbrev half : ℕ → RingHalf 8 4
half slots = record {
  page = one_written slots;
  pool = λ i. new 4;
  pool_base = 4096;
  pool_stride = 24;
  scratch_next_seq = 1;
  writer_rid = 5;
}

half-InStep : (bits : ℕ) → bits < 2 → InStep (half (2 ^ bits))
half-InStep bits h = record {
  quiet = record {
    geometry = record { bits = bits; count = refl; mask = refl };
    short = at_most bits h;
    published = refl;
    behind = omega arith;
    fits = at_least bits h;
    small = omega arith;
    written = λ s lo hi. (refl, omega arith);
    past = λ s r. omega arith;
  };
  alive = refl;
  paired = refl;
}
  where
    at_most : (b : ℕ) → b < 2 → 2 ^ b ≤ 2 ^ 62
    at_most zero less = omega arith
    at_most (suc zero) less = omega arith
    at_most (suc (suc b)) less = absurd (omega arith)

    at_least : (b : ℕ) → b < 2 → 1 ≤ 0 + 2 ^ b
    at_least zero less = omega arith
    at_least (suc zero) less = omega arith
    at_least (suc (suc b)) less = absurd (omega arith)

abbrev payload : TBuffer 4
payload = record { buf = 9 ∷ 0 ∷ 0 ∷ 0 ∷ []; written = 1; read_offset = 0 }

emit_wrapped-overwrites_example :
    ((emit_wrapped (none ∷ []) (half (2 ^ 0)) payload).0 ≡ returns false)
    × (under_way (half (2 ^ 0)) ≡ new 4 ∷ [])
    × (under_way (emit_wrapped (none ∷ []) (half (2 ^ 0)) payload).1 ≡ payload ∷ [])
emit_wrapped-overwrites_example =
    emit_wrapped-overwrites (half (2 ^ 0)) payload (half-InStep 0 (omega arith)) 0 refl refl

-- Two descriptors and a page, one stage in the manifest, and a configuration.
abbrev pipe_half : Half 8
pipe_half = record {
  is_lmax = false;
  is_producer = true;
  read_fd = pos 11;
  write_fd = pos 14;
  page = 140737488355328;
  wrap_scratch_pool = 0;
  pair_tag_mask = 5 ∷ [];
  pair_module_mask = 18446744073709551615 ∷ [];
  edge_from_rid = 3;
  edge_to_rid = 4;
  wrap_manifest = ((77 ∷ []), (32 ∷ 34 ∷ [])) ∷ [];
  config = record { buf = 97 ∷ 61 ∷ 49 ∷ 0 ∷ 0 ∷ 0 ∷ 0 ∷ 0 ∷ []; written = 3; read_offset = 0 };
}

abbrev blank_half : Half 8
blank_half = record pipe_half {
  read_fd = negsuc 0;
  write_fd = negsuc 0;
  page = 0;
  pair_tag_mask = 0 ∷ [];
  pair_module_mask = 0 ∷ [];
  edge_from_rid = 0;
  edge_to_rid = 0;
  wrap_manifest = [];
  config = new 8;
}

pipe_half-IsPackable : IsPackable 4 false pipe_half blank_half (new 160)
unfolding new digits
pipe_half-IsPackable = record {
  valid = new-IsValid (omega arith) (omega arith);
  nothing = refl;
  room = omega arith;
  range = (
    tt,
    (
      tt,
      (
        omega arith,
        (
          omega arith,
          (
            omega arith,
            (
              omega arith,
              (
                omega arith,
                (omega arith, (omega arith, (omega arith, (omega arith, (tt, (tt, tt)))))),
              ),
            ),
          ),
        ),
      ),
    ),
  );
  names = (refl, refl, tt);
  few = omega arith;
  tags = refl;
  origins = refl;
  config_text = refl;
  config_room = omega arith;
  config_front = refl;
  config_valid = new-IsValid (omega arith) (omega arith);
  endpoints = refl;
}

unpack-pack_example :
    (h' : Half 8) × (unpack 4 blank_half (pack [] false (new 160) pipe_half) ≡ some h')
    × IsCopy false pipe_half blank_half h'
unpack-pack_example = unpack-pack [] 4 false pipe_half blank_half (new 160) pipe_half-IsPackable

abbrev nobody : PairHalf
nobody = record {
  active = pipe;
  read_fd = none;
  write_fd = none;
  lmax_page = none;
  shared_page = none;
  is_producer = true;
  writer_rid = 0;
  edge_from_rid = 0;
  edge_to_rid = 0;
  next_read_seq = 0;
  closed = false;
}

-- One descriptor was closed before.
abbrev new_pair : PairState
new_pair = record {
  producer = nobody;
  consumer = nobody;
  outside = record { tombstoned = λ page. false; closed_fds = 9 ∷ []; shut_fds = [] };
}

abbrev closings : List Closing
closings = producer_closes_write ∷ producer_closes_write ∷ consumer_closes_read ∷ []

teardown-close_some_example :
    count_fd 12
      (teardown_pipe_pair
        (close_some closings (make_pipe_pair new_pair 4096 3 4 11 12 13 14))
        (some 4096)).outside.closed_fds
    ≡ 1
teardown-close_some_example = teardown-close_some new_pair 4096 3 4 11 12 13 14 closings 12
