-- ===== src/Shutdown.antt =====
-- The end of a worker in connection.c: `close_idle_connections` and `close_listening_sockets`.
use libcn.Prelude.{
  ℕ, zero, suc, Ptr, null, Bool, true, false, Option, none, some, ◌∷◌, ◌&&◌, ◌==◌, if◌then◌else◌,
}
mod Idle
mod Tests
use libcn.World.{Event, Connection, World, set_connection}
use libcn.Connection.{free_connection}
use libcn.Start.{item, sizeof_connection}
use libcn.Accept.{Accepting}
use libcn.Epoll.Control.{CtlOp, Interest, epoll_del_event}
use libcn.EventLoop.{Worker}

abbrev pub is_open : Option ℕ → Bool
is_open none = false
is_open (some s) = true

-- `c[i].fd != (int)-1 && c[i].idle`.
abbrev pub waits : World → Ptr → Bool
waits w c = is_open (w.connections c).fd && (w.connections c).idle

-- `c[i].close = 1`.
abbrev pub marked : World → Ptr → World
marked w c = set_connection w c (record (w.connections c) { close = true })

-- The connections from index `i` on, of which there are as many as the next argument says.
unfoldable pub idle_loop : (Ptr → World → Option World) → Ptr → ℕ → ℕ → World → Option World
idle_loop handle conns i zero w = some w
idle_loop handle conns i (suc k) w =
    let c = item conns sizeof_connection i in
    let w1 = marked w c in
    elim (waits w c) [
      | true ↦ elim (handle (w1.connections c).read w1) [
        | none ↦ none
        | some w2 ↦ idle_loop handle conns (suc i) k w2
      ]
      | false ↦ idle_loop handle conns (suc i) k w
    ]

-- `conns` is `cycle->connections`, `n` is `cycle->connection_n`, and `handle` runs the handler of an
-- event.
unfoldable pub close_idle_connections :
    (Ptr → World → Option World) → Ptr → ℕ → World → Option World
unfolding idle_loop
close_idle_connections handle conns n w = idle_loop handle conns 0 n w

-- `listening_t` as it is read and written here.
pub record OpenSocket : Type 0 where
  pub connection : Ptr
  pub fd : Option ℕ

-- `close(fd)`; the descriptor -1 is none that could be closed.
abbrev pub close_descriptor : Option ℕ → World → World
close_descriptor none w = w
close_descriptor (some s) w = record w { closed_fds = s ∷ w.closed_fds }

-- `free_connection(c)` and `c->fd = -1`.
unfoldable pub release_connection : World → Ptr → World
release_connection w c =
    let w1 = free_connection w c in set_connection w1 c (record (w1.connections c) { fd = none })

module _ {K : Type 0} (epoll_ctl : K → CtlOp → Option ℕ → Interest → Option K) where
  -- The part of `close_listening_sockets` for the connection of the listening socket.
  unfoldable pub close_listener : K → World → Ptr → K × World
  unfolding release_connection
  close_listener k w c =
      let rev = (w.connections c).read in
      let silent : K × World = elim (epoll_del_event epoll_ctl k w rev true true) [
        | none ↦ (k, w)
        | some s ↦ s
      ] in
      let (k1, w1) = if (w.events rev).active then silent else (k, w) in
      (k1, release_connection w1 c)

  unfoldable pub close_listening_sockets : Worker K → OpenSocket → Worker K × OpenSocket
  unfolding close_listener
  close_listening_sockets s ls =
      let a = s.accepting in
      let closed = close_listener a.kernel a.world ls.connection in
      let (k, w) = if ls.connection == null then (a.kernel, a.world) else closed in
      (
        record s {
          accepting = record a {
            kernel = k;
            world = close_descriptor ls.fd w;
            accept_mutex_held = false;
          };
          use_accept_mutex = false;
        },
        record ls { fd = none },
      )
