-- ===== src/Start/Result.antt =====
-- What `event_process_init` leaves.
use libcn.Prelude.{
  ℕ, suc, ◌^◌, ◌<◌, ◌≡◌, refl, Ptr, null, Bool, true, false, Option, none, some, List, [], ◌∷◌,
  arith, ◌==◌, ◌∙◌, ap,
}
use mathlib.Core.Path.{subst}
use libcn.Alloc.{Libc}
use libcn.World.{Event, Connection, World, Handler}
use libcn.Connection.{get_connection, take_connection}
use libcn.Connection.Free.{IsFree, IsFree-frame, Fits, Taken, get_connection-Taken}
use libcn.Epoll.Control.{CtlOp, Interest}
use libcn.Accept.{Listening}
use libcn.Accept.Held.{listens}
use libcn.EventLoop.{Worker}
use package.libcn.Start.{
  sizeof_connection, sizeof_event, item, fill_tables, listen_with, ListenSocket, alloc_tables,
  initial, System, take_listener, event_process_init,
}
use package.libcn.Start.Tables.{fill_tables-IsFree, behind, in_front-behind}

-- The listening connection `c` waits for its worker to win the accept mutex: it has the descriptor and
-- the accept handler, the other connections are free, and the worker neither listens nor claims to hold
-- the mutex.
pub record Ready {K : Type 0} (s : Worker K) (ls : ListenSocket) (socket : Listening) (c : Ptr)
    (free : List Ptr) : Type 0 where
  pub connection : socket.connection ≡ c
  pub fd : (s.accepting.world.connections c).fd ≡ some ls.fd
  pub listening : (s.accepting.world.connections c).listening ≡ ls.at
  pub handler :
      (s.accepting.world.events (s.accepting.world.connections c).read).handler
      ≡ Handler.event_accept
  pub accept : (s.accepting.world.events (s.accepting.world.connections c).read).accept ≡ true
  pub free_list : IsFree s.accepting.world free
  pub held : s.accepting.accept_mutex_held ≡ false
  pub inactive : listens s.accepting.world socket ≡ false

-- The listening connection after it is taken from the tables.
abbrev Listens : World → Ptr → ListenSocket → List Ptr → Type 0
Listens v c ls free =
    (((v.connections c).fd ≡ some ls.fd) × ((v.connections c).listening ≡ ls.at))
    × (((v.events (v.connections c).read).handler ≡ Handler.event_accept)
        × ((v.events (v.connections c).read).accept ≡ true)
        × ((v.events (v.connections c).read).active ≡ false))
    × IsFree v free

listen_with-Listens :
    (w v : World) (c : Ptr) (ls : ListenSocket) (free : List Ptr)
    → Taken w v c ls.fd
    → IsFree v free
    → Listens (listen_with v c ls.at ls.deferred_accept) c ls free
listen_with-Listens w v c ls free t f =
    let conn = t.connection in
    let fd : (v.connections c).fd ≡ some ls.fd = ap (λ (x : Connection). x.fd) conn in
    let read : (v.connections c).read ≡ (w.connections c).read =
      ap (λ (x : Connection). x.read) conn in
    let active : (v.events (v.connections c).read).active ≡ false =
      ap (λ p. (v.events p).active) read ∙ ap (λ (x : Event). x.active) t.read_event in
    (
      (ground (arith, fd), ground arith),
      (ground arith, ground arith, ground (arith, active)),
      IsFree-frame v (listen_with v c ls.at ls.deferred_accept) free f refl refl
          (λ d. ground arith),
    )

take_listener_lem :
    {K : Type 0} (epoll_ctl : K → CtlOp → Option ℕ → Interest → Option K)
    (handle : Ptr → World → Option World) (s : Worker K) (ls : ListenSocket) (w v : World) (c : Ptr)
    → get_connection handle w ls.fd ≡ some (c, v)
    → (c == null) ≡ false
    → ls.reuseport ≡ false
    → s.use_accept_mutex ≡ true
    → take_listener epoll_ctl handle s ls w
      ≡ some (
        false,
        record s {
          accepting = record s.accepting { world = listen_with v c ls.at ls.deferred_accept };
        },
        record { connection = c; reuseport = ls.reuseport },
      )
unfolding take_listener
take_listener_lem epoll_ctl handle s ls w v c e n r u =
    rw (e, take_listener) (rw n (rw (r, u) refl))

event_process_init_lem :
    {K : Type 0} (epoll_ctl : K → CtlOp → Option ℕ → Interest → Option K)
    (handle : Ptr → World → Option World) (os : System) (resolution : Bool) (s : Worker K)
    (ls : ListenSocket) (n : ℕ) (sentinel : Ptr) (libc libc' : Libc) (conns revs wevs : Ptr)
    → os.epoll_init ≡ true
    → os.sigaction ≡ true
    → alloc_tables libc n ≡ (some (conns, revs, wevs), libc')
    → event_process_init epoll_ctl handle os resolution s ls n sentinel libc
      ≡ take_listener epoll_ctl handle
          (initial s sentinel)
          ls
          (fill_tables conns revs wevs n (initial s sentinel).accepting.world)
unfolding event_process_init
event_process_init_lem epoll_ctl handle os true s ls n sentinel libc libc' conns revs wevs a b e =
    rw (a, b) (rw (e, event_process_init) refl)
event_process_init_lem epoll_ctl handle os false s ls n sentinel libc libc' conns revs wevs a b e =
    rw a (rw (e, event_process_init) refl)

-- Where `epoll_init`, `sigaction` and the allocations succeed, for at least one connection, no `files` and
-- a listening socket without SO_REUSEPORT: `event_process_init` returns -1, and yet all is set up. The
-- first connection has the listening socket's descriptor and the accept handler, the others are free, each
-- once and counted, and the worker neither listens nor claims to hold the accept mutex.
pub event_process_init-Ready :
    {K : Type 0} (epoll_ctl : K → CtlOp → Option ℕ → Interest → Option K)
    (handle : Ptr → World → Option World) (os : System) (resolution : Bool) (s : Worker K)
    (ls : ListenSocket) (m : ℕ) (sentinel : Ptr) (libc libc' : Libc) (conns revs wevs : Ptr)
    → os.epoll_init ≡ true
    → os.sigaction ≡ true
    → ls.reuseport ≡ false
    → s.accepting.world.files ≡ none
    → alloc_tables libc (suc m) ≡ (some (conns, revs, wevs), libc')
    → 0 < conns
    → suc m < 2 ^ 32
    → (revs == wevs) ≡ false
    → (v : Worker K) × (socket : Listening) × (event_process_init epoll_ctl handle os resolution s
          ls
          (suc m)
          sentinel
          libc
        ≡ some (false, v, socket))
      × Ready v ls socket conns (behind conns m [])
unfolding libcn.Timer.event_timer_init
event_process_init-Ready epoll_ctl handle os resolution s ls m sentinel libc libc' conns revs wevs a
      b own no_files e real few apart =
    let s1 = initial s sentinel in
    let w = fill_tables conns revs wevs (suc m) s1.accepting.world in
    let (free, reads, writes, _, files) =
      fill_tables-IsFree conns revs wevs (suc m) s1.accepting.world real few in
    let free' : IsFree w (conns ∷ behind conns m []) =
      subst (IsFree w)
        (in_front-behind conns m []
          ∙ ap (λ c. c ∷ behind conns m []) (first conns sizeof_connection))
        free in
    let read : (w.connections conns).read ≡ revs =
      at_first (λ c. (w.connections c).read) revs (reads 0 (omega arith)) in
    let write : (w.connections conns).write ≡ wevs =
      at_first (λ c. (w.connections c).write) wevs (writes 0 (omega arith)) in
    let fits : Fits w ls.fd = rw (files, no_files) refl in
    let distinct : ((w.connections conns).read == (w.connections conns).write) ≡ false =
      rw (read, write) apart in
    let (got, taken, rest) =
      get_connection-Taken handle w conns (behind conns m []) ls.fd free' fits distinct in
    let v = listen_with (take_connection w ls.fd) conns ls.at ls.deferred_accept in
    let ((fd, at), (handler, accept, active), free_list) =
      listen_with-Listens w (take_connection w ls.fd) conns ls (behind conns m []) taken rest in
    (
      record s1 { accepting = record s1.accepting { world = v } },
      record { connection = conns; reuseport = ls.reuseport },
      event_process_init_lem epoll_ctl handle os resolution s ls (suc m) sentinel libc libc' conns
            revs wevs a b e
          ∙ take_listener_lem epoll_ctl handle s1 ls w (take_connection w ls.fd) conns got
              (ground arith) own refl,
      record {
        connection = refl;
        fd = fd;
        listening = at;
        handler = handler;
        accept = accept;
        free_list = free_list;
        held = refl;
        inactive = active;
      },
    )
  where
    first : (table size : ℕ) → item table size 0 ≡ table
    first table size = omega arith

    at_first :
        (f : Ptr → Ptr) (p : Ptr)
        → f (item conns sizeof_connection 0) ≡ item p sizeof_event 0
        → f conns ≡ p
    at_first f p e =
        subst (λ c. f c ≡ item p sizeof_event 0) (first conns sizeof_connection) e
        ∙ first p sizeof_event
