-- ===== src/Connection/Steps.antt =====
-- What the last steps of the closing of a connection write, and what they leave.
use libcn.Prelude.{ℕ, ◌≡◌, Ptr, Bool, none, some, ◌∷◌, arith}
use libcn.World.{World}
use package.libcn.Connection.{has_files, free_connection, reusable_connection, close_fd}
use package.libcn.Connection.Free.{data_of}

-- What the two steps on the connection itself leave.
pub record Same (w v : World) (c : Ptr) : Type 0 where
  pub events : v.events ≡ w.events
  pub fds : v.closed_fds ≡ w.closed_fds
  pub read : (v.connections c).read ≡ (w.connections c).read
  pub write : (v.connections c).write ≡ (w.connections c).write
  pub fd : (v.connections c).fd ≡ (w.connections c).fd
  pub has_files : has_files v ≡ has_files w
  pub files_n : v.files_n ≡ w.files_n

pub reusable_connection-Same :
    (w : World) (c : Ptr) (b : Bool)
    → Same w (reusable_connection w c b) c
      × ((reusable_connection w c b).free_connections ≡ w.free_connections)
      × ((reusable_connection w c b).free_connection_n ≡ w.free_connection_n)
      × ((d : Ptr) → data_of (reusable_connection w c b) d ≡ data_of w d)
unfolding reusable_connection
reusable_connection-Same w c b = (
  record {
    events = ground arith;
    fds = ground arith;
    read = ground arith;
    write = ground arith;
    fd = ground arith;
    has_files = ground arith;
    files_n = ground arith;
  },
  ground arith,
  ground arith,
  λ d. ground arith,
)

pub free_connection-Same :
    (w : World) (c : Ptr)
    → Same w (free_connection w c) c
      × ((free_connection w c).reusable_links ≡ w.reusable_links)
      × ((free_connection w c).reusable_queue ≡ w.reusable_queue)
      × ((free_connection w c).reusable_connections_n ≡ w.reusable_connections_n)
      × ((d : Ptr) → ((free_connection w c).connections d).reusable ≡ (w.connections d).reusable)
unfolding free_connection
free_connection-Same w c = (
  record {
    events = ground arith;
    fds = ground arith;
    read = ground arith;
    write = ground arith;
    fd = ground arith;
    has_files = ground arith;
    files_n = ground arith;
  },
  ground arith,
  ground arith,
  ground arith,
  λ d. ground arith,
)

-- What `close_fd` does.
pub record Shut (w v : World) (c : Ptr) (s : ℕ) : Type 0 where
  pub fd : (v.connections c).fd ≡ none
  pub fds : v.closed_fds ≡ s ∷ w.closed_fds
  pub read : (v.connections c).read ≡ (w.connections c).read
  pub write : (v.connections c).write ≡ (w.connections c).write
  pub events : v.events ≡ w.events
  pub has_files : has_files v ≡ has_files w
  pub files_n : v.files_n ≡ w.files_n
  pub head : v.free_connections ≡ w.free_connections
  pub free_n : v.free_connection_n ≡ w.free_connection_n
  pub links : v.reusable_links ≡ w.reusable_links
  pub queue : v.reusable_queue ≡ w.reusable_queue
  pub count : v.reusable_connections_n ≡ w.reusable_connections_n
  pub same : (d : Ptr) → data_of v d ≡ data_of w d
  pub flag : (d : Ptr) → (v.connections d).reusable ≡ (w.connections d).reusable

pub close_fd-Shut :
    (w : World) (c : Ptr) (s : ℕ) → (w.connections c).fd ≡ some s → Shut w (close_fd w c) c s
unfolding close_fd
close_fd-Shut w c s e = record {
  fd = ground arith;
  fds = ground arith;
  read = ground arith;
  write = ground arith;
  events = ground arith;
  has_files = ground arith;
  files_n = ground arith;
  head = ground arith;
  free_n = ground arith;
  links = ground arith;
  queue = ground arith;
  count = ground arith;
  same = λ d. ground arith;
  flag = λ d. ground arith;
}
