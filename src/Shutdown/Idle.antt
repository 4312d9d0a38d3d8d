-- ===== src/Shutdown/Idle.antt =====
-- `close_idle_connections` against the table of connections.
use libcn.Prelude.{ℕ, ◌+◌, ◌<◌, ◌≤◌, ◌≡◌, Ptr, true, false, Option, none, some, ◌==◌}
use libcn.World.{World}
use libcn.Start.{item, sizeof_connection}
use package.libcn.Shutdown.{waits, marked}

-- What a handler leaves that closes the connection `c` and no other.
pub record Shut (w v : World) (c : Ptr) : Type 0 where
  pub fd : (v.connections c).fd ≡ none
  pub others : (d : Ptr) → (d == c) ≡ false → v.connections d ≡ w.connections d

-- What the loop needs of the handlers, in the states that `Sound` tells: a handler closes a connection
-- that is marked `close`, and only that one.
pub record IsCloser (Sound : World → Type 0) (handle : Ptr → World → Option World) : Type 0 where
  pub mark : (w : World) (c : Ptr) → Sound w → Sound (marked w c)
  pub closes :
      (w : World) (c : Ptr)
      → Sound w
      → (w.connections c).close ≡ true
      → (v : World) × (handle (w.connections c).read w ≡ some v) × Shut w v c × Sound v

-- The state after the part of the loop for the indices from `i` to below `i + k`.
pub record Idled (w v : World) (conns : Ptr) (i k : ℕ) : Type 0 where
  pub closed :
      (j : ℕ)
      → i ≤ j
      → j < i + k
      → waits w (item conns sizeof_connection j) ≡ true
      → (v.connections (item conns sizeof_connection j)).fd ≡ none
  pub spared : (d : Ptr) → waits w d ≡ false → v.connections d ≡ w.connections d
