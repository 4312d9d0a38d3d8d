-- ===== src/Cycle/Tests.antt =====
-- A cycle at the first address that the allocator answers with.
use libcn.Prelude.{◌≡◌, refl, some, none, [], ◌∷◌}
use libcn.Alloc.{Libc}
use libcn.World.{World, zero_connection}
use libcn.Connection.Fixture.{world}
use package.libcn.Cycle.{Cycle, init_cycle, in_pool}

abbrev libc : Libc
libc = record { answers = some 4096 ∷ []; freed = []; bytes = λ a. 7 }

abbrev exhausted : Libc
exhausted = record libc { answers = none ∷ [] }

abbrev unused : World
unused = record world { connections = λ c. zero_connection }

without_memory : (init_cycle exhausted unused).0 ≡ none
unfolding init_cycle in_pool libcn.Pool.create_pool libcn.Alloc.memalign
without_memory = refl
