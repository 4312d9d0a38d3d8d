-- ===== src/Cycle/Empty.antt =====
-- What `init_cycle` returns.
use libcn.Prelude.{◌+◌, ◌≡◌, Ptr, [], ◌∷◌}
use libcn.Pool.{Pool, with_blocks, new_pool, default_pool_size, sizeof_pool}
use libcn.World.{World}
use libcn.Connection.Free.{IsFree}
use libcn.Connection.Reusable.{IsReusable}
use package.libcn.Cycle.{Cycle, sizeof_cycle}

-- A cycle without connections.
pub record IsEmpty (c : Cycle) (a : Ptr) : Type 0 where
  pub at : c.at ≡ a + sizeof_pool
  pub inside : c.at + sizeof_cycle ≡ c.pool.first.last
  pub free : IsFree c.world []
  pub reusable : IsReusable c.world []

-- The pool once the cycle is in it.
abbrev held : Ptr → Pool
held a =
    let p = new_pool a default_pool_size in
    with_blocks p (record p.first { last = a + sizeof_pool + sizeof_cycle } ∷ [])
