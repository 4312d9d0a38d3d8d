-- ===== src/World.antt =====
-- The state that event.h, connection.h and cycle.h declare: events, connections and the cycle, with
-- the queues and the timers that run through them. `void *` fields and pointers are addresses; the
-- `queue`, `timer` and connection nodes are named by the address of the object that holds them.
use libcn.Prelude.{ℕ, Ptr, Bool, false, Option, some, List, write}
use libcn.Queue.{Links}
use libcn.Rbtree.{Rbtree}

-- The functions that the program stores in `event_t.handler`.
pub data Handler : Type 0 where
  no_handler event_accept myread mywrite : Handler

-- The fields of `struct event_s` that the program uses, but for its two nodes.
pub record Event : Type 0 where
  pub data_ptr : Ptr
  pub write : Bool
  pub accept : Bool
  pub instance_bit : Bool
  pub active : Bool
  pub ready : Bool
  pub eof : Bool
  pub error : Bool
  pub timedout : Bool
  pub timer_set : Bool
  pub deferred_accept : Bool
  pub pending_eof : Bool
  pub posted : Bool
  pub closed : Bool
  pub cancelable : Bool
  pub available : Bool
  pub handler : Handler

-- `memset(ev, 0, sizeof(event_t))`.
abbrev pub zero_event : Event
zero_event = record {
  data_ptr = 0;
  write = false;
  accept = false;
  instance_bit = false;
  active = false;
  ready = false;
  eof = false;
  error = false;
  timedout = false;
  timer_set = false;
  deferred_accept = false;
  pending_eof = false;
  posted = false;
  closed = false;
  cancelable = false;
  available = false;
  handler = Handler.no_handler;
}

-- The fields of `struct connection_s` that the program uses, but for its queue node; `none` is the
-- descriptor -1.
pub record Connection : Type 0 where
  pub data_ptr : Ptr
  pub read : Ptr
  pub write : Ptr
  pub fd : Option ℕ
  pub listening : Ptr
  pub sent : ℕ
  pub pool : Ptr
  pub number : ℕ
  pub buffer : Ptr
  pub idle : Bool
  pub reusable : Bool
  pub close : Bool
  pub shared : Bool
  pub sndlowat : Bool

-- `memset(c, 0, sizeof(connection_t))`: the descriptor becomes 0.
abbrev pub zero_connection : Connection
zero_connection = record {
  data_ptr = 0;
  read = 0;
  write = 0;
  fd = some 0;
  listening = 0;
  sent = 0;
  pool = 0;
  number = 0;
  buffer = 0;
  idle = false;
  reusable = false;
  close = false;
  shared = false;
  sndlowat = false;
}

-- The cycle, the events and connections at all addresses, the queues and the timers. `files` is
-- `none` where `cycle->files` is NULL, and `closed_fds` records the descriptors given to `close`.
pub record World : Type 0 where
  pub events : Ptr → Event
  pub connections : Ptr → Connection
  pub files : Option (ℕ → Ptr)
  pub files_n : ℕ
  pub free_connections : Ptr
  pub free_connection_n : ℕ
  pub reusable_queue : Ptr
  pub reusable_links : Links
  pub reusable_connections_n : ℕ
  pub posted_links : Links
  pub posted_accept_events : Ptr
  pub posted_events : Ptr
  pub timers : Rbtree
  pub current_msec : ℕ
  pub closed_fds : List ℕ

abbrev pub set_event : World → Ptr → Event → World
set_event w p e = record w { events = write w.events p e }

abbrev pub set_connection : World → Ptr → Connection → World
set_connection w p c = record w { connections = write w.connections p c }
