-- ===== src/Start.antt =====
-- `event_process_init` of event.c: the queues, the timers, the tables of connections and events with
-- the free list through them, and the connection of the listening socket.
use libcn.Prelude.{
  ℕ, zero, suc, ◌+◌, ◌*◌, Ptr, null, Bool, true, false, Option, none, some, not, ◌==◌,
  if◌then◌else◌, mul64, pos,
}
mod Tables
mod Result
mod Tests
use libcn.Alloc.{Libc, alloc}
use libcn.Queue.{queue_init}
use libcn.World.{Event, Connection, World, Handler, set_event, set_connection}
use libcn.Timer.{event_timer_init}
use libcn.Connection.{get_connection}
use libcn.Epoll.Control.{CtlOp, Interest, epoll_add_event}
use libcn.Accept.{Listening, Accepting}
use libcn.EventLoop.{Worker}

-- `sizeof(connection_t)` and `sizeof(event_t)` under the System V ABI of x86-64.
abbrev pub sizeof_connection : ℕ
sizeof_connection = 168

abbrev pub sizeof_event : ℕ
sizeof_event = 88

-- `&table[i]`.
abbrev pub item : Ptr → ℕ → ℕ → Ptr
item table size i = table + i * size

-- The two `for` loops over the events of index below `n`, from the last down: the loops write each event
-- once, so that their order is of no account.
unfoldable pub init_read_events : Ptr → ℕ → World → World
init_read_events revs zero w = w
init_read_events revs (suc i) w =
    let ev = item revs sizeof_event i in
    init_read_events revs i
      (set_event w ev (record (w.events ev) { closed = true; instance_bit = true }))

unfoldable pub init_write_events : Ptr → ℕ → World → World
init_write_events wevs zero w = w
init_write_events wevs (suc i) w =
    let ev = item wevs sizeof_event i in
    init_write_events wevs i (set_event w ev (record (w.events ev) { closed = true }))

-- The `do … while` that links the connections below `n`, from the last down, in front of `next`: the
-- state, and the first connection.
unfoldable pub link_connections : Ptr → Ptr → Ptr → ℕ → Ptr → World → World × Ptr
link_connections conns revs wevs zero next w = (w, next)
link_connections conns revs wevs (suc i) next w =
    let c = item conns sizeof_connection i in
    link_connections conns revs wevs i c (
      set_connection w c (record (w.connections c) {
        data_ptr = next;
        read = item revs sizeof_event i;
        write = item wevs sizeof_event i;
        fd = none;
      }))

-- The part of `event_process_init` that fills the tables; there is at least one connection.
unfoldable pub fill_tables : Ptr → Ptr → Ptr → ℕ → World → World
unfolding init_read_events init_write_events link_connections
fill_tables conns revs wevs n w =
    let (v, next) =
      link_connections conns revs wevs n null
        (init_write_events wevs n (init_read_events revs n w)) in
    record v { free_connections = next; free_connection_n = n }

-- `ls->connection = c` and what is set in `c` and its read event.
abbrev pub listen_with : World → Ptr → Ptr → Bool → World
listen_with w c ls deferred =
    let w1 = set_connection w c (record (w.connections c) { listening = ls }) in
    let rev = (w1.connections c).read in
    set_event w1 rev (record (w1.events rev) {
      accept = true;
      deferred_accept = deferred;
      handler = Handler.event_accept;
    })

-- `listening_t` as this function reads it, with its address.
pub record ListenSocket : Type 0 where
  pub at : Ptr
  pub fd : ℕ
  pub deferred_accept : Bool
  pub reuseport : Bool

-- The tables, `none` where an allocation fails.
unfoldable pub alloc_tables : Libc → ℕ → Option (Ptr × Ptr × Ptr) × Libc
unfolding alloc
alloc_tables s n =
    let (conns, s1) = alloc s (mul64 sizeof_connection n) in
    let (revs, s2) = alloc s1 (mul64 sizeof_event n) in
    let (wevs, s3) = alloc s2 (mul64 sizeof_event n) in
    elim conns [
      | none ↦ (none, s1)
      | some c ↦ elim revs [
        | none ↦ (none, s2)
        | some r ↦ elim wevs [ none ↦ (none, s3) | some e ↦ (some (c, r, e), s3) ]
      ]
    ]

-- The start of `event_process_init`, up to the timers.
abbrev pub initial : {K : Type 0} → Worker K → Ptr → Worker K
initial s sentinel =
    let w = s.accepting.world in
    let w1 = record w {
      posted_links = queue_init (queue_init w.posted_links w.posted_accept_events) w.posted_events;
    } in
    record s {
      accepting = record s.accepting {
        accept_mutex_held = false;
        world = event_timer_init w1 sentinel;
      };
      use_accept_mutex = true;
    }

-- The answers of the operating system: whether `epoll_init` and `sigaction` succeed.
pub record System : Type 0 where
  pub epoll_init : Bool
  pub sigaction : Bool

module _ {K : Type 0} (epoll_ctl : K → CtlOp → Option ℕ → Interest → Option K) where
  -- The end of `event_process_init`, where the listening socket has its connection `c`; the Boolean is
  -- whether the return is 0.
  unfoldable pub listen_on : Worker K → ListenSocket → Ptr → World → Bool × Worker K × Listening
  listen_on s ls c w =
      let w1 = listen_with w c ls.at ls.deferred_accept in
      let watched =
        epoll_add_event epoll_ctl s.accepting.kernel w1 (w1.connections c).read true false in
      let socket : Listening = record { connection = c; reuseport = ls.reuseport } in
      let idle = record s { accepting = record s.accepting { world = w1 } } in
      let added : Bool × Worker K × Listening = elim watched [
        | none ↦ (false, idle, socket)
        | some (k, w2) ↦
            (true, record s { accepting = record s.accepting { kernel = k; world = w2 } }, socket)
      ] in
      if ls.reuseport then added else if s.use_accept_mutex then (false, idle, socket) else added

  -- The part from the tables on, where `handle` runs the handlers that `drain_connections` calls.
  unfoldable pub take_listener :
      (Ptr → World → Option World)
      → Worker K
      → ListenSocket
      → World
      → Option (Bool × Worker K × Listening)
  unfolding listen_on
  take_listener handle s ls w = elim (get_connection handle w ls.fd) [
    | none ↦ none
    | some (c, w1) ↦
        if c == null
        then some (
          false,
          record s { accepting = record s.accepting { world = w1 } },
          record { connection = null; reuseport = ls.reuseport },
        )
        else some (listen_on s ls c w1)
  ]

  -- `none` where the process exits; `sentinel` is the address of `event_timer_sentinel`, and
  -- `resolution` is whether `timer_resolution` is set.
  unfoldable pub event_process_init :
      (Ptr → World → Option World)
      → System
      → Bool
      → Worker K
      → ListenSocket
      → ℕ
      → Ptr
      → Libc
      → Option (Bool × Worker K × Listening)
  unfolding take_listener fill_tables
  event_process_init handle os resolution s ls n sentinel libc =
      let s1 = initial s sentinel in
      let socket : Listening = record { connection = null; reuseport = ls.reuseport } in
      let (tables, _) = alloc_tables libc n in
      let filled : Option (Bool × Worker K × Listening) = elim tables [
        | none ↦ some (false, s1, socket)
        | some (conns, revs, wevs) ↦
            take_listener handle s1 ls (fill_tables conns revs wevs n s1.accepting.world)
      ] in
      if not os.epoll_init
      then none
      else if resolution
      then (if os.sigaction then filled else some (false, s1, socket))
      else filled
