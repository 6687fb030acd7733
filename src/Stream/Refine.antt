-- ===== src/Stream/Refine.antt =====
-- No sequence of calls tells a stream from a bounded queue.
use mathlib.Core.Option
use etcs.Base.{
  ℕ, ◌+◌, ◌-◌, ◌<◌, ◌≤◌, ◌≡◌, refl, sym, ap, ◌∙◌, false, [], ◌∷◌, length, some, none, arith, dec_lt,
}
use etcs.Buffer.{TBuffer}
use etcs.Buffer.Bounds.{IsValid}
use etcs.Buffer.Contents.{contents}
use etcs.Ring.{uint64_max, slot}
use etcs.Ring.Calls.{mark_consumed}
use etcs.Ring.Calls.Quiet.{
  IsQuiet, written_page, write_quiet, write_full, write-IsQuiet, mark_consumed-IsQuiet,
}
use etcs.Ring.Calls.Queue.{
  queue, window, length-queue, IsSized, fields, queue-written_page, written_page-IsSized, entry,
  mark_consumed-IsSized, mark_consumed_fields, queue-mark_consumed, acquire_read_more,
  acquire_read_end,
}
use etcs.Stream.{Stream, write, consume}
use etcs.Stream.Fifo.{put_entry, get_entry}

pub record IsValidStream {n : ℕ} (s : Stream n) : Type 0 where
  pub quiet : IsQuiet s.page
  pub sized : IsSized s.page
  pub alive : s.page.tombstoned ≡ false
  pub expected : s.expected_seq ≡ s.page.consumer_cursor

module _ {n : ℕ} where
  write_refines_room :
      {s : Stream n} (rid : ℕ) {payload : TBuffer n}
      → IsValidStream s
      → IsValid payload
      → s.page.sequence + 1 < uint64_max
      → s.page.sequence < s.page.consumer_cursor + s.page.slot_count
      → (t : Stream n) × (write s rid payload
          ≡ some ((put_entry s.page.slot_count (queue s.page) (rid, contents payload)).0, t))
        × (queue t.page ≡ (put_entry s.page.slot_count (queue s.page) (rid, contents payload)).1)
        × IsValidStream t
        × (t.page.slot_count ≡ s.page.slot_count)
        × (t.page.sequence ≤ s.page.sequence + 1)
  unfolding write put_entry
  write_refines_room {s} rid {payload} v w small room = (
    record s { page = written_page s.page rid payload },
    ground (arith, write_quiet rid payload v.quiet v.alive small room, l, v.quiet),
    queue-written_page rid v.quiet v.sized w room
        ∙ sym (ground (arith, length-queue s.page, v.quiet)),
    record {
      quiet = write-IsQuiet rid payload v.quiet small room;
      sized = written_page-IsSized rid v.sized w;
      alive = f.2 ∙ v.alive;
      expected = v.expected ∙ sym f.0;
    },
    f.3,
    omega (arith, f.1),
  )
    where
      f :
          ((written_page s.page rid payload).consumer_cursor ≡ s.page.consumer_cursor)
          × ((written_page s.page rid payload).sequence ≡ s.page.sequence + 1)
          × ((written_page s.page rid payload).tombstoned ≡ s.page.tombstoned)
          × ((written_page s.page rid payload).slot_count ≡ s.page.slot_count)
      f = fields s.page rid payload

      l : length (queue s.page) ≡ s.page.sequence - s.page.consumer_cursor
      l = length-queue s.page

  write_refines_full :
      {s : Stream n} (rid : ℕ) (payload : TBuffer n)
      → IsValidStream s
      → s.page.sequence ≡ s.page.consumer_cursor + s.page.slot_count
      → (t : Stream n) × (write s rid payload
          ≡ some ((put_entry s.page.slot_count (queue s.page) (rid, contents payload)).0, t))
        × (queue t.page ≡ (put_entry s.page.slot_count (queue s.page) (rid, contents payload)).1)
        × IsValidStream t
        × (t.page.slot_count ≡ s.page.slot_count)
        × (t.page.sequence ≤ s.page.sequence + 1)
  unfolding write put_entry
  write_refines_full {s} rid payload v full = (
    s,
    ground (arith, write_full s.page rid payload v.quiet v.alive full, length-queue s.page),
    ground (arith, length-queue s.page),
    v,
    refl,
    omega arith,
  )

  -- A write that is refused leaves the stream; one that is taken goes to the end of the queue.
  pub write_refines :
      {s : Stream n} (rid : ℕ) {payload : TBuffer n}
      → IsValidStream s
      → IsValid payload
      → s.page.sequence + 1 < uint64_max
      → (t : Stream n) × (write s rid payload
          ≡ some ((put_entry s.page.slot_count (queue s.page) (rid, contents payload)).0, t))
        × (queue t.page ≡ (put_entry s.page.slot_count (queue s.page) (rid, contents payload)).1)
        × IsValidStream t
        × (t.page.slot_count ≡ s.page.slot_count)
        × (t.page.sequence ≤ s.page.sequence + 1)
  unfolding write put_entry
  write_refines {s} rid {payload} v w small =
      elim (dec_lt s.page.sequence (s.page.consumer_cursor + s.page.slot_count)) [
        | yes room ↦ write_refines_room rid v w small room
        | no full ↦ write_refines_full rid payload v (omega (arith, v.quiet.fits))
      ]

  consume-some :
      {s : Stream n}
      → IsValidStream s
      → s.page.consumer_cursor < s.page.sequence
      → consume s ≡ (
        some (slot s.page s.page.consumer_cursor).payload,
        record s {
          page = mark_consumed s.page s.page.consumer_cursor;
          expected_seq = s.page.consumer_cursor + 1;
        },
      )
  unfolding consume
  consume-some {s} v more = ground (arith, v, v.quiet, acquire_read_more v.quiet more)

  consume-none :
      {s : Stream n}
      → IsValidStream s
      → s.page.consumer_cursor ≡ s.page.sequence
      → consume s ≡ (none, s)
  unfolding consume
  consume-none {s} v e = ground (arith, v, acquire_read_end v.quiet e)

  consume_more :
      {s : Stream n}
      → IsValidStream s
      → s.page.consumer_cursor < s.page.sequence
      → let (out, t) = consume s in
        (Option.map contents out ≡ (get_entry (queue s.page)).0)
        × (queue t.page ≡ (get_entry (queue s.page)).1)
        × IsValidStream t
        × (t.page.slot_count ≡ s.page.slot_count)
        × (t.page.sequence ≡ s.page.sequence)
  unfolding get_entry
  consume_more {s} v more = rw got (
    sym (ap (λ q. (get_entry q).0) front),
    sym (ap (λ q. (get_entry q).1) front),
    record {
      quiet = mark_consumed-IsQuiet v.quiet more;
      sized = mark_consumed-IsSized s.page.consumer_cursor v.sized;
      alive = f.2 ∙ v.alive;
      expected = sym f.0;
    },
    f.3,
    f.1,
  )
    where
      got : consume s ≡ (
        some (slot s.page s.page.consumer_cursor).payload,
        record s {
          page = mark_consumed s.page s.page.consumer_cursor;
          expected_seq = s.page.consumer_cursor + 1;
        },
      )
      got = consume-some v more

      f :
          ((mark_consumed s.page s.page.consumer_cursor).consumer_cursor
            ≡ s.page.consumer_cursor + 1)
          × ((mark_consumed s.page s.page.consumer_cursor).sequence ≡ s.page.sequence)
          × ((mark_consumed s.page s.page.consumer_cursor).tombstoned ≡ s.page.tombstoned)
          × ((mark_consumed s.page s.page.consumer_cursor).slot_count ≡ s.page.slot_count)
      f = mark_consumed_fields s.page (omega (arith, v.quiet.small))

      front :
          queue s.page
          ≡ entry s.page s.page.consumer_cursor
            ∷ queue (mark_consumed s.page s.page.consumer_cursor)
      front = queue-mark_consumed v.quiet more

  consume_end :
      {s : Stream n}
      → IsValidStream s
      → s.page.consumer_cursor ≡ s.page.sequence
      → let (out, t) = consume s in
        (Option.map contents out ≡ (get_entry (queue s.page)).0)
        × (queue t.page ≡ (get_entry (queue s.page)).1)
        × IsValidStream t
        × (t.page.slot_count ≡ s.page.slot_count)
        × (t.page.sequence ≡ s.page.sequence)
  unfolding get_entry
  consume_end {s} v e = rw (consume-none v e) (
    sym (ap (λ q. (get_entry q).0) empty),
    empty ∙ sym (ap (λ q. (get_entry q).1) empty),
    v,
    refl,
    refl,
  )
    where
      empty : queue s.page ≡ []
      empty =
          let none_left : s.page.sequence - s.page.consumer_cursor ≡ 0 = omega arith in
          ap (window s.page s.page.consumer_cursor) none_left

  -- Consuming delivers the front of the queue and drops it, or, where nothing is queued, delivers
  -- nothing and leaves the stream.
  pub consume_refines :
      {s : Stream n}
      → IsValidStream s
      → let (out, t) = consume s in
        (Option.map contents out ≡ (get_entry (queue s.page)).0)
        × (queue t.page ≡ (get_entry (queue s.page)).1)
        × IsValidStream t
        × (t.page.slot_count ≡ s.page.slot_count)
        × (t.page.sequence ≡ s.page.sequence)
  consume_refines {s} v = elim (dec_lt s.page.consumer_cursor s.page.sequence) [
    | yes more ↦ consume_more v more
    | no done ↦ consume_end v (omega (arith, v.quiet.behind))
  ]
