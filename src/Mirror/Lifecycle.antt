-- ===== src/Mirror/Lifecycle.antt =====
-- core/MirrorBuffer.h, `makePair`, `closeWrite`, `closeRead`, `isOpen` and `teardownPair`. A descriptor
-- of -1 and a null pointer are `none`; a page is known by its address. What `closeWrite` sends of a
-- chain's last bytes is `tails` in Wraps. Contexts and their signals, manifests and the blocking modes
-- of descriptors are left out.
use etcs.Base.{ℕ, Bool, true, false, not, ◌||◌, List, ◌∷◌, Option, none, some}
use etcs.Base.Maps.{update}
use etcs.Mirror.{ActiveStrategy, lmax, pipe, socket}

-- The fields of a half that these operations read or write.
pub record PairHalf : Type 0 where
  pub active : ActiveStrategy
  pub read_fd : Option ℕ
  pub write_fd : Option ℕ
  pub lmax_page : Option ℕ
  pub shared_page : Option ℕ
  pub is_producer : Bool
  pub writer_rid : ℕ
  pub edge_from_rid : ℕ
  pub edge_to_rid : ℕ
  pub next_read_seq : ℕ
  pub closed : Bool

-- The pages that are torn down, and the descriptors closed so far and those shut down.
pub record Outside : Type 0 where
  pub tombstoned : ℕ → Bool
  pub closed_fds : List ℕ
  pub shut_fds : List ℕ

pub record PairState : Type 0 where
  pub producer : PairHalf
  pub consumer : PairHalf
  pub outside : Outside

-- `::close(fd)` where the descriptor is not -1
unfoldable pub close_fd : Option ℕ → Outside → Outside
close_fd none o = o
close_fd (some fd) o = record o { closed_fds = fd ∷ o.closed_fds }

unfoldable pub shut_fd : Option ℕ → Outside → Outside
shut_fd none o = o
shut_fd (some fd) o = record o { shut_fds = fd ∷ o.shut_fds }

unfoldable pub tombstone_page : Option ℕ → Outside → Outside
tombstone_page none o = o
tombstone_page (some page) o = record o { tombstoned = update o.tombstoned page true }

unfoldable pub close_write_by : ActiveStrategy → PairHalf → Outside → PairHalf × Outside
unfolding close_fd shut_fd tombstone_page
close_write_by lmax h o = (record h { lmax_page = none }, tombstone_page h.lmax_page o)
close_write_by pipe h o = (record h { write_fd = none }, close_fd h.write_fd o)
close_write_by socket h o = (h, shut_fd h.write_fd o)

unfoldable pub close_write : PairHalf → Outside → PairHalf × Outside
unfolding close_write_by
close_write h o = close_write_by h.active (record h { closed = true }) o

unfoldable pub close_read_by : ActiveStrategy → PairHalf → Outside → PairHalf × Outside
unfolding close_fd shut_fd
close_read_by lmax h o = (h, o)
close_read_by pipe h o = (record h { read_fd = none }, close_fd h.read_fd o)
close_read_by socket h o = (h, shut_fd h.read_fd o)

unfoldable pub close_read : PairHalf → Outside → PairHalf × Outside
unfolding close_read_by
close_read h o = close_read_by h.active h o

abbrev pub is_there : Option ℕ → Bool
is_there none = false
is_there (some x) = true

abbrev pub is_alive : Outside → Option ℕ → Bool
is_alive o none = false
is_alive o (some page) = not (o.tombstoned page)

abbrev pub is_open_by : ActiveStrategy → PairHalf → Outside → Bool
is_open_by lmax h o = is_alive o h.lmax_page
is_open_by pipe h o = is_there h.read_fd || is_there h.write_fd
is_open_by socket h o = is_there h.read_fd || is_there h.write_fd

abbrev pub is_open : PairHalf → Outside → Bool
is_open h o = is_open_by h.active h o

-- `makePair<StrategyLMAX>`
unfoldable pub make_lmax_pair : PairState → ℕ → ℕ → ℕ → PairState
make_lmax_pair p page writer_rid reader_rid = record p {
  producer = record p.producer {
    active = lmax;
    lmax_page = some page;
    is_producer = true;
    writer_rid = writer_rid;
    edge_from_rid = writer_rid;
    edge_to_rid = reader_rid;
    next_read_seq = 0;
  };
  consumer = record p.consumer {
    active = lmax;
    lmax_page = some page;
    is_producer = false;
    writer_rid = writer_rid;
    edge_from_rid = writer_rid;
    edge_to_rid = reader_rid;
    next_read_seq = 0;
  };
}

-- `makePair<StrategyPipe>`, with the four descriptors that the two calls of `pipe` gave.
unfoldable pub make_pipe_pair : PairState → ℕ → ℕ → ℕ → ℕ → ℕ → ℕ → ℕ → PairState
make_pipe_pair p page writer_rid reader_rid data_read data_write ack_read ack_write = record p {
  producer = record p.producer {
    active = pipe;
    shared_page = some page;
    is_producer = true;
    writer_rid = writer_rid;
    edge_from_rid = writer_rid;
    edge_to_rid = reader_rid;
    read_fd = some ack_read;
    write_fd = some data_write;
  };
  consumer = record p.consumer {
    active = pipe;
    shared_page = some page;
    is_producer = false;
    writer_rid = writer_rid;
    edge_from_rid = writer_rid;
    edge_to_rid = reader_rid;
    read_fd = some data_read;
    write_fd = some ack_write;
  };
}

-- `makePair<StrategySocket>`: the two identities are descriptors.
unfoldable pub make_socket_pair : PairState → ℕ → ℕ → ℕ → PairState
make_socket_pair p page prod_fd cons_fd = record p {
  producer = record p.producer {
    active = socket;
    shared_page = some page;
    is_producer = true;
    writer_rid = prod_fd;
    read_fd = none;
    write_fd = some prod_fd;
  };
  consumer = record p.consumer {
    active = socket;
    shared_page = some page;
    is_producer = false;
    writer_rid = prod_fd;
    read_fd = some cons_fd;
    write_fd = none;
  };
}

unfoldable pub teardown_pipe_pair : PairState → Option ℕ → PairState
unfolding close_fd tombstone_page
teardown_pipe_pair p page =
    let a = close_fd p.producer.read_fd p.outside in
    let b = close_fd p.producer.write_fd a in
    let c = close_fd p.consumer.read_fd b in
    let d = close_fd p.consumer.write_fd c in
    record {
      producer = record p.producer { read_fd = none; write_fd = none; shared_page = none };
      consumer = record p.consumer { read_fd = none; write_fd = none; shared_page = none };
      outside = tombstone_page page d;
    }

unfoldable pub teardown_socket_pair : PairState → Option ℕ → PairState
unfolding close_fd tombstone_page
teardown_socket_pair p page =
    let a = close_fd p.producer.write_fd p.outside in
    let b = close_fd p.consumer.read_fd a in
    record {
      producer = record p.producer { write_fd = none; shared_page = none };
      consumer = record p.consumer { read_fd = none; shared_page = none };
      outside = tombstone_page page b;
    }

unfoldable pub teardown_lmax_pair : PairState → Option ℕ → PairState
unfolding tombstone_page
teardown_lmax_pair p page = record {
  producer = record p.producer { lmax_page = none; next_read_seq = 0 };
  consumer = record p.consumer { lmax_page = none; next_read_seq = 0 };
  outside = tombstone_page page p.outside;
}
