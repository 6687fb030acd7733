-- ===== src/Mirror/Closing.antt =====
-- core/MirrorBuffer.h, what becomes of a pair's descriptors: each is closed once.
use etcs.Base.{
  ℕ, suc, ◌+◌, ◌≡◌, refl, ap, ◌∙◌, not, true, false, List, [], ◌∷◌, Option, none, some, ◌==◌,
  if◌then◌else◌, arith,
}
use etcs.Base.Maps.{update_self}
use etcs.Mirror.{ActiveStrategy, lmax, pipe, socket}
use etcs.Mirror.Lifecycle.{
  PairHalf, Outside, PairState, close_fd, shut_fd, tombstone_page, close_write, close_write_by,
  close_read, close_read_by, is_open, is_open_by, is_alive, make_pipe_pair, teardown_pipe_pair,
}

-- How often a descriptor stands in a list, and in a field.
abbrev pub count_fd : ℕ → List ℕ → ℕ
count_fd d [] = 0
count_fd d (x ∷ xs) = if x == d then suc (count_fd d xs) else count_fd d xs

abbrev held : ℕ → Option ℕ → ℕ
held d none = 0
held d (some x) = if x == d then 1 else 0

abbrev held_by : ℕ → PairHalf → ℕ
held_by d h = held d h.read_fd + held d h.write_fd

-- A call that one of the halves makes.
pub data Closing : Type 0 where
  producer_closes_write producer_closes_read consumer_closes_write consumer_closes_read : Closing

abbrev of_producer : PairState → PairHalf × Outside → PairState
of_producer p (h, o) = record p { producer = h; outside = o }

abbrev of_consumer : PairState → PairHalf × Outside → PairState
of_consumer p (h, o) = record p { consumer = h; outside = o }

abbrev pub close_one : Closing → PairState → PairState
close_one producer_closes_write p = of_producer p (close_write p.producer p.outside)
close_one producer_closes_read p = of_producer p (close_read p.producer p.outside)
close_one consumer_closes_write p = of_consumer p (close_write p.consumer p.outside)
close_one consumer_closes_read p = of_consumer p (close_read p.consumer p.outside)

abbrev pub close_some : List Closing → PairState → PairState
close_some [] p = p
close_some (c ∷ cs) p = close_some cs (close_one c p)

-- What the halves hold of a descriptor and how often it has been closed.
abbrev account : ℕ → PairState → ℕ
account d p = held_by d p.producer + held_by d p.consumer + count_fd d p.outside.closed_fds

closed_more :
    (d : ℕ) (fd : Option ℕ) (o : Outside)
    → count_fd d (close_fd fd o).closed_fds ≡ held d fd + count_fd d o.closed_fds
unfolding close_fd
closed_more d none o = omega arith
closed_more d (some x) o = ground arith

keeps :
    (d : ℕ) (fd page : Option ℕ) (o : Outside)
    → (count_fd d (shut_fd fd o).closed_fds ≡ count_fd d o.closed_fds)
      × (count_fd d (tombstone_page page o).closed_fds ≡ count_fd d o.closed_fds)
unfolding shut_fd tombstone_page
keeps d none none o = (refl, refl)
keeps d none (some page) o = (refl, refl)
keeps d (some fd) none o = (refl, refl)
keeps d (some fd) (some page) o = (refl, refl)

-- Closing moves a descriptor from the half to those closed.
Moves : ℕ → PairHalf → Outside → PairHalf × Outside → Type 0
Moves d h o (h', o') =
    held_by d h' + count_fd d o'.closed_fds ≡ held_by d h + count_fd d o.closed_fds

close_write-Moves : (d : ℕ) (h : PairHalf) (o : Outside) → Moves d h o (close_write h o)
unfolding close_write Moves
close_write-Moves d h o = by h.active
  where
    by :
        (a : ActiveStrategy)
        → held_by d (close_write_by a (record h { closed = true }) o).0
            + count_fd d (close_write_by a (record h { closed = true }) o).1.closed_fds
          ≡ held_by d h + count_fd d o.closed_fds
    by lmax = omega (arith, keeps d none h.lmax_page o)
    by pipe = omega (arith, closed_more d h.write_fd o)
    by socket = omega (arith, keeps d h.write_fd none o)

close_read-Moves : (d : ℕ) (h : PairHalf) (o : Outside) → Moves d h o (close_read h o)
unfolding close_read Moves
close_read-Moves d h o = by h.active
  where
    by :
        (a : ActiveStrategy)
        → held_by d (close_read_by a h o).0 + count_fd d (close_read_by a h o).1.closed_fds
          ≡ held_by d h + count_fd d o.closed_fds
    by lmax = refl
    by pipe = omega (arith, closed_more d h.read_fd o)
    by socket = omega (arith, keeps d h.read_fd none o)

account-close_one : (d : ℕ) (c : Closing) (p : PairState) → account d (close_one c p) ≡ account d p
unfolding Moves
account-close_one d producer_closes_write p =
    omega (arith, close_write-Moves d p.producer p.outside)
account-close_one d producer_closes_read p = omega (arith, close_read-Moves d p.producer p.outside)
account-close_one d consumer_closes_write p =
    omega (arith, close_write-Moves d p.consumer p.outside)
account-close_one d consumer_closes_read p = omega (arith, close_read-Moves d p.consumer p.outside)

account-close_some :
    (d : ℕ) (cs : List Closing) (p : PairState) → account d (close_some cs p) ≡ account d p
account-close_some d [] p = refl
account-close_some d (c ∷ cs) p = account-close_some d cs (close_one c p) ∙ account-close_one d c p

teardown_closes :
    (d : ℕ) (p : PairState) (page : Option ℕ)
    → count_fd d (teardown_pipe_pair p page).outside.closed_fds ≡ account d p
unfolding teardown_pipe_pair
teardown_closes d p page =
    let a = close_fd p.producer.read_fd p.outside in
    let b = close_fd p.producer.write_fd a in
    let c = close_fd p.consumer.read_fd b in
    omega (
      arith,
      closed_more d p.producer.read_fd p.outside,
      closed_more d p.producer.write_fd a,
      closed_more d p.consumer.read_fd b,
      closed_more d p.consumer.write_fd c,
      keeps d none page (close_fd p.consumer.write_fd c),
    )

-- However often the halves of a new pair over a pipe close their sides, in any order, after the
-- pair is torn down each of its four descriptors has been closed once more than before the pair was
-- made, and no other descriptor has been closed.
pub teardown-close_some :
    (p : PairState) (page writer_rid reader_rid data_read data_write ack_read ack_write : ℕ)
    (cs : List Closing) (d : ℕ)
    → let made =
        make_pipe_pair p page writer_rid reader_rid data_read data_write ack_read ack_write in
      count_fd d (teardown_pipe_pair (close_some cs made) (some page)).outside.closed_fds
      ≡ count_fd d (data_read ∷ data_write ∷ ack_read ∷ ack_write ∷ p.outside.closed_fds)
unfolding make_pipe_pair
teardown-close_some p page writer_rid reader_rid data_read data_write ack_read ack_write cs d =
    let made =
      make_pipe_pair p page writer_rid reader_rid data_read data_write ack_read ack_write in
    teardown_closes d (close_some cs made) (some page) ∙ account-close_some d cs made ∙ ground arith

-- Afterwards neither half is open, and the page is torn down.
teardown-Closed :
    (p : PairState) (page : ℕ)
    → p.producer.active ≡ pipe
    → p.consumer.active ≡ pipe
    → let q = teardown_pipe_pair p (some page) in
      (is_open q.producer q.outside ≡ false)
      × (is_open q.consumer q.outside ≡ false)
      × (is_alive q.outside (some page) ≡ false)
unfolding teardown_pipe_pair tombstone_page
teardown-Closed p page e g =
    let q = teardown_pipe_pair p (some page) in
    (
      ap (λ a. is_open_by a q.producer q.outside) e,
      ap (λ a. is_open_by a q.consumer q.outside) g,
      ap not (update_self _ page true),
    )
