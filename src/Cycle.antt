-- ===== src/Cycle.antt =====
-- cycle.h and cycle.c: the cycle of a worker, in a pool of its own.
use libcn.Prelude.{ℕ, Ptr, null, Option, none, some}
mod Empty
mod Tests
use libcn.Alloc.{Libc}
use libcn.Pool.{Pool, default_pool_size, create_pool, pcalloc, destroy_pool}
use libcn.Queue.{queue_init}
use libcn.World.{Connection, World}

-- `MAX_CONN_N`.
abbrev pub max_conn_n : ℕ
max_conn_n = 512

-- `sizeof(cycle_t)` under the System V ABI of x86-64.
abbrev pub sizeof_cycle : ℕ
sizeof_cycle = 104

-- The address of the cycle, its fields `pool` and `connection_n`, and the state with its other fields.
pub record Cycle : Type 0 where
  pub at : Ptr
  pub pool : Pool
  pub connection_n : ℕ
  pub world : World

-- The fields that are zero after `pcalloc`, and the queue, which is named by the address of the cycle.
abbrev pub new_cycle : Ptr → Pool → World → Cycle
new_cycle a pool w = record {
  at = a;
  pool = pool;
  connection_n = max_conn_n;
  world = record w {
    files = none;
    files_n = 0;
    free_connections = null;
    free_connection_n = 0;
    reusable_queue = a;
    reusable_links = queue_init w.reusable_links a;
    reusable_connections_n = 0;
  };
}

-- The part of `init_cycle` after `pcalloc`, then after `create_pool`.
unfoldable pub with_cycle : World → Option Ptr × Pool × Libc → Option Cycle × Libc
unfolding queue_init destroy_pool
with_cycle w (none, pool, s) = (none, destroy_pool s pool)
with_cycle w (some a, pool, s) = (some (new_cycle a pool w), s)

unfoldable pub in_pool : World → Option Pool × Libc → Option Cycle × Libc
unfolding with_cycle pcalloc
in_pool w (none, s) = (none, s)
in_pool w (some pool, s) = with_cycle w (pcalloc s pool sizeof_cycle)

unfoldable pub init_cycle : Libc → World → Option Cycle × Libc
unfolding in_pool create_pool
init_cycle s w = in_pool w (create_pool s default_pool_size)
