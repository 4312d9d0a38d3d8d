-- ===== src/Posted/Tests.antt =====
-- Two events posted to the queue at 700, and one to the accept queue at 600.
use libcn.Prelude.{Ptr, false, none, [], ◌∷◌}
use libcn.Queue.{Links}
use libcn.World.{zero_event, zero_connection, World}
use package.libcn.Posted.{post_event}

abbrev queues : Links
queues = record { prev = λ a. a; next = λ a. a }

abbrev world : World
world = record {
  events = λ e. zero_event;
  connections = λ c. zero_connection;
  files = none;
  files_n = 0;
  free_connections = 0;
  free_connection_n = 0;
  reusable_queue = 500;
  reusable_links = queues;
  reusable_connections_n = 0;
  posted_links = queues;
  posted_accept_events = 600;
  posted_events = 700;
  timers = record {
    key = λ a. 0;
    left = λ a. 0;
    right = λ a. 0;
    parent = λ a. 0;
    red = λ a. false;
    root = 800;
    sentinel = 800;
  };
  current_msec = 0;
  closed_fds = [];
}

abbrev one : World
one = post_event world 41 700

abbrev two : World
two = post_event one 42 700

-- A handler that closes a descriptor of the number of its event.
abbrev note : Ptr → World → World
note e w = record w { closed_fds = e ∷ w.closed_fds }
