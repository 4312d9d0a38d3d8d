-- ===== src/Shutdown/Tests.antt =====
-- A worker that stops, with three connections of which one is idle.
use libcn.Prelude.{refl, Ptr, true, false, Option, none, some, pos, ◌==◌, ◌≡◌}
use libcn.World.{Connection, zero_connection, zero_event, World, set_connection}
use libcn.Epoll.Kernel.{Kernel, epoll_ctl, unwatched, opened}
use libcn.EventLoop.{Worker}
use package.libcn.Shutdown.{OpenSocket, close_listening_sockets, close_listener, release_connection}

-- The read event of the connection at an address has the same address; the connection at 1168 is idle.
abbrev table : World
table = record opened {
  events = λ p. record zero_event { data_ptr = p };
  connections = λ p. record zero_connection { read = p; fd = some p; idle = p == 1168 };
}

abbrev shut : Ptr → World → Option World
shut ev w =
    let c = (w.events ev).data_ptr in
    some (set_connection w c (record (w.connections c) { fd = none }))

abbrev Wired : World → Type 0
Wired w = (c : Ptr) → (w.events (w.connections c).read).data_ptr ≡ c

abbrev stopping : Worker Kernel
stopping = record {
  accepting = record {
    kernel = unwatched;
    world = record table { free_connections = 0; free_connection_n = 2 };
    word = 0;
    accept_mutex_held = true;
    accept_events = false;
  };
  use_accept_mutex = true;
  accept_disabled = pos 0;
}

abbrev stopped : Worker Kernel × OpenSocket
stopped = close_listening_sockets epoll_ctl stopping (record { connection = 1000; fd = some 5 })

stopped_free :
    (stopped.0.accepting.world.free_connections ≡ 1000)
    × (stopped.0.accepting.world.free_connection_n ≡ 3)
    × ((stopped.0.accepting.world.connections 1000).fd ≡ none)
unfolding close_listening_sockets close_listener release_connection libcn.Connection.free_connection
stopped_free = (refl, refl, refl)

stopped_socket :
    (stopped.1.fd ≡ none)
    × (stopped.0.accepting.accept_mutex_held ≡ false)
    × (stopped.0.use_accept_mutex ≡ false)
unfolding close_listening_sockets
stopped_socket = (refl, refl, refl)
