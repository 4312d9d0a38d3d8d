-- ===== src/Acceptor.antt =====
-- `event_accept` and `close_accepted_connection` of event_accept.c: new connections of the listening
-- socket.
use libcn.Prelude.{
  ℕ, zero, suc, ◌+◌, ◌-◌, ◌/◌, Ptr, null, Bool, true, false, Option, none, some, List, [], ◌∷◌, not,
  ◌==◌, leb, if◌then◌else◌, u64, sub64, ℤ, pos, negsuc,
}
mod Undone
mod Tests
use libcn.Alloc.{Libc}
use libcn.Pool.{Pool, create_pool, destroy_pool, palloc}
use libcn.World.{Event, Connection, World, set_event, set_connection}
use libcn.Mutex.{shmtx_force_unlock}
use libcn.Timer.{event_add_timer}
use libcn.Connection.{free_connection, get_connection, close_fd}
use libcn.Epoll.Control.{CtlOp, Interest}
use libcn.Accept.{Listening, Accepting, enable_accept_events, disable_accept_events}
use libcn.EventLoop.{Worker, accept_mutex_delay}

-- What `accept` returns: a descriptor, or -1 with `errno`; `EMFILE` stands for `ENFILE` too.
pub data Accepted : Type 0 where
  descriptor : ℕ → Accepted
  eagain econnaborted emfile other_error : Accepted

-- A worker, with the C library's allocator and the shared counters.
pub record Acceptor (K : Type 0) : Type 0 where
  pub worker : Worker K
  pub libc : Libc
  pub stat_accepted : ℕ
  pub stat_active : ℕ
  pub stat_handled : ℕ
  pub connection_counter : ℕ

-- The fields of `listening_t` that are read here, and its address.
pub record Source : Type 0 where
  pub at : Ptr
  pub socket : Listening
  pub pool_size : ℕ

-- `sizeof(struct sockaddr)`.
abbrev pub sizeof_sockaddr : ℕ
sizeof_sockaddr = 16

abbrev pub world_of : {K : Type 0} → Acceptor K → World
world_of s = s.worker.accepting.world

abbrev pub set_world : {K : Type 0} → Acceptor K → World → Acceptor K
set_world s w = record s {
  worker = record s.worker { accepting = record s.worker.accepting { world = w } };
}

-- `n / 8 - free` as a signed number.
abbrev pub shortage : ℕ → ℕ → ℤ
shortage n free = if leb free (n / 8) then pos (n / 8 - free) else negsuc (free - n / 8 - 1)

-- `pool` is `c->pool`.
unfoldable pub close_accepted_connection :
    {K : Type 0} → Acceptor K → Ptr → Option Pool → Acceptor K
close_accepted_connection s c pool =
    let s1 = set_world s (close_fd (free_connection (world_of s) c) c) in
    record s1 {
      libc = elim pool [ none ↦ s.libc | some p ↦ destroy_pool s.libc p ];
      stat_active = sub64 s.stat_active 1;
    }

-- The end of a round, where nothing can fail any more; `accepted` runs `ls->handler`.
unfoldable pub established :
    {K : Type 0}
    → (Ptr → World → Option World)
    → Acceptor K
    → Source
    → Ptr
    → Bool
    → Option (Bool × Acceptor K)
established accepted s ls c deferred =
    let w = world_of s in
    let w1 =
      set_connection w c
        (record (w.connections c) { listening = ls.at; number = s.connection_counter }) in
    let rev = (w1.connections c).read in
    let wev = (w1.connections c).write in
    let w2 = set_event w1 wev (record (w1.events wev) { ready = true }) in
    let w3 =
      if deferred
      then set_event w2 rev (record (w2.events rev) { ready = true; available = true })
      else w2 in
    let s1 = record s {
      connection_counter = u64 (s.connection_counter + 1);
      stat_handled = u64 (s.stat_handled + 1);
    } in
    elim (accepted c w3) [ none ↦ none | some w4 ↦ some (true, set_world s1 w4) ]

-- The part from the moment at which there is the pool `p`, after the request for the address.
unfoldable pub addressed :
    {K : Type 0}
    → (Ptr → World → Option World)
    → Acceptor K
    → Source
    → Ptr
    → Bool
    → Option Ptr × Pool × Libc
    → Option (Bool × Acceptor K)
unfolding established close_accepted_connection
addressed accepted s ls c deferred (none, p, libc) =
    some (false, close_accepted_connection (record s { libc = libc }) c (some p))
addressed accepted s ls c deferred (some a, p, libc) =
    established accepted (record s { libc = libc }) ls c deferred

-- The part after the request for the pool.
unfoldable pub pooled :
    {K : Type 0}
    → (Ptr → World → Option World)
    → Acceptor K
    → Source
    → Ptr
    → Bool
    → Option Pool × Libc
    → Option (Bool × Acceptor K)
unfolding addressed
pooled accepted s ls c deferred (none, libc) =
    some (false, close_accepted_connection (record s { libc = libc }) c none)
pooled accepted s ls c deferred (some p, libc) =
    let w = world_of s in
    let w1 = set_connection w c (record (w.connections c) { pool = p.first.base }) in
    addressed accepted (set_world s w1) ls c deferred (palloc libc p sizeof_sockaddr)

-- The part from the moment at which the connection `c` has its descriptor. The Boolean is whether the
-- loop goes on.
unfoldable pub with_pool :
    {K : Type 0}
    → (Ptr → World → Option World)
    → Acceptor K
    → Source
    → Ptr
    → Bool
    → Option (Bool × Acceptor K)
unfolding pooled
with_pool accepted s ls c deferred =
    pooled accepted (record s { stat_active = u64 (s.stat_active + 1) }) ls c deferred
      (create_pool s.libc ls.pool_size)

-- A round for the new descriptor `fd`, where the cycle has `n` connections; `handle` runs the handlers
-- that `drain_connections` calls.
unfoldable pub accept_one :
    {K : Type 0}
    → (Ptr → World → Option World)
    → (Ptr → World → Option World)
    → Acceptor K
    → Source
    → ℕ
    → ℕ
    → Bool
    → Option (Bool × Acceptor K)
unfolding with_pool
accept_one handle accepted s ls n fd deferred =
    let w = world_of s in
    let s1 = record s {
      worker = record s.worker { accept_disabled = shortage n w.free_connection_n };
      stat_accepted = u64 (s.stat_accepted + 1);
    } in
    elim (get_connection handle w fd) [
      | none ↦ none
      | some (c, w1) ↦
          let closed = record w1 { closed_fds = fd ∷ w1.closed_fds } in
          let opened = with_pool accepted (set_world s1 w1) ls c deferred in
          if c == null then some (false, set_world s1 closed) else opened
    ]

module _ {K : Type 0} (epoll_ctl : K → CtlOp → Option ℕ → Interest → Option K) where
  -- Where the process or the system has no descriptor left.
  unfoldable pub out_of_files : ℕ → Acceptor K → Source → ℕ → Ptr → Option (Acceptor K)
  out_of_files fuel s ls pid ev =
      let a = s.worker.accepting in
      elim (disable_accept_events epoll_ctl a.kernel a.world ls.socket true) [
        | none ↦ some s
        | some (k, w) ↦
            let quiet = record a { kernel = k; world = w } in
            let timed : Option (Acceptor K) = elim (event_add_timer fuel w ev accept_mutex_delay) [
              | none ↦ none
              | some w1 ↦ some (record s {
                worker = record s.worker { accepting = record quiet { world = w1 } };
              })
            ] in
            let released =
              if a.accept_mutex_held
              then record quiet {
                accept_mutex_held = false;
                word = (shmtx_force_unlock a.word pid).1;
              }
              else quiet in
            if s.worker.use_accept_mutex
            then some (record s {
              worker = record s.worker { accepting = released; accept_disabled = pos 1 };
            })
            else timed
      ]

  -- The `do … while` over the answers of `accept`; `none` when they run out.
  unfoldable pub accept_loop :
      ℕ
      → (Ptr → World → Option World)
      → (Ptr → World → Option World)
      → Acceptor K
      → Source
      → ℕ
      → ℕ
      → Ptr
      → List Accepted
      → Option (Acceptor K)
  unfolding accept_one out_of_files
  accept_loop fuel handle accepted s ls n pid ev [] = none
  accept_loop fuel handle accepted s ls n pid ev (eagain ∷ later) = some s
  accept_loop fuel handle accepted s ls n pid ev (other_error ∷ later) = some s
  accept_loop fuel handle accepted s ls n pid ev (emfile ∷ later) = out_of_files fuel s ls pid ev
  accept_loop fuel handle accepted s ls n pid ev (econnaborted ∷ later) =
      let rest = accept_loop fuel handle accepted s ls n pid ev later in
      if ((world_of s).events ev).available then rest else some s
  accept_loop fuel handle accepted s ls n pid ev (descriptor fd ∷ later) =
      elim (accept_one handle accepted s ls n fd ((world_of s).events ev).deferred_accept) [
        | none ↦ none
        | some (false, s1) ↦ some s1
        | some (true, s1) ↦ elim ((world_of s1).events ev).available [
          | true ↦ accept_loop fuel handle accepted s1 ls n pid ev later
          | false ↦ some s1
        ]
      ]

  unfoldable pub event_accept :
      ℕ
      → (Ptr → World → Option World)
      → (Ptr → World → Option World)
      → Acceptor K
      → Source
      → ℕ
      → ℕ
      → Ptr
      → List Accepted
      → Option (Acceptor K)
  unfolding accept_loop
  event_accept fuel handle accepted s ls n pid ev answers =
      let a = s.worker.accepting in
      let start : K → World → Option (Acceptor K) = λ k w.
        let w1 = set_event w ev (record (w.events ev) { ready = false; available = true }) in
        accept_loop fuel handle accepted
          (record s {
            worker = record s.worker { accepting = record a { kernel = k; world = w1 } };
          })
          ls n pid ev answers in
      let enabled : Option (Acceptor K) =
        elim (enable_accept_events epoll_ctl a.kernel a.world ls.socket) [
          | none ↦ some s
          | some (k, w) ↦ start k (set_event w ev (record (w.events ev) { timedout = false }))
        ] in
      if (a.world.events ev).timedout then enabled else start a.kernel a.world
