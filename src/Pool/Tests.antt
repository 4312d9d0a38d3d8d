-- ===== src/Pool/Tests.antt =====
-- A pool of 256 bytes at address 4096.
use libcn.Prelude.{◌≡◌, refl, true, some, [], ◌∷◌, arith, map}
use mathlib.Core.List.{reverse_aux}
use libcn.Alloc.{Libc}
use package.libcn.Pool.{Block, Pool, blocks, new_pool, destroy_pool, reset_pool, palloc_small}
use package.libcn.Pool.Serve.{IsPool, Live, Granted, palloc_small-Granted}
use package.libcn.Pool.Reset.{header, large_allocs, destroy_pool-freed, reset_pool-IsPool}

abbrev libc : Libc
libc = record { answers = some 8192 ∷ []; freed = []; bytes = λ a. 7 }

abbrev small : Pool
small = record (new_pool 4096 256) { large = record { at = 4152; alloc = 65536 } ∷ [] }

small-IsPool : IsPool small
small-IsPool = record {
  sound = (omega arith, tt, tt);
  even = refl;
  room = ground arith;
  here = omega arith;
}

palloc_small-Granted_example : Granted true 24 small (palloc_small libc small 24 true)
palloc_small-Granted_example =
    palloc_small-Granted true 24 libc small small-IsPool
      (record { even = refl; word = omega arith; apart = (ground arith, tt) }) (ground arith)

destroy_pool-freed_example :
    (destroy_pool libc small).freed
    ≡ reverse_aux
        (map (λ (b : Block). b.base) (blocks small))
        (reverse_aux (large_allocs small.large) [])
destroy_pool-freed_example = destroy_pool-freed libc small refl

reset_pool-IsPool_example :
    IsPool (reset_pool libc small).0
    × Live (blocks (reset_pool libc small).0) (header small ∷ [])
    × (map (λ (b : Block). b.base) (blocks (reset_pool libc small).0)
        ≡ map (λ (b : Block). b.base) (blocks small))
    × ((reset_pool libc small).0.current ≡ 0)
    × ((reset_pool libc small).0.large ≡ [])
    × ((reset_pool libc small).1.freed ≡ reverse_aux (large_allocs small.large) [])
reset_pool-IsPool_example = reset_pool-IsPool libc small small-IsPool
