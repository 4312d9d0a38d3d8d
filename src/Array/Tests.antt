-- ===== src/Array/Tests.antt =====
-- An array of four places of eight bytes in a pool of 1024 bytes at address 4096.
use libcn.Prelude.{refl, inl, some, List, [], ◌∷◌, arith}
use libcn.Alloc.{Libc}
use libcn.Pool.{Pool, blocks, new_pool}
use libcn.Pool.Blocks.{Region}
use libcn.Pool.Serve.{IsPool}
use package.libcn.Array.{Array, array_create, array_push}
use package.libcn.Array.Push.{Holds, Outcome}
use package.libcn.Array.Room.{array_push-Outcome}
use package.libcn.Array.Life.{Created, array_create-Created}

abbrev libc : Libc
libc = record { answers = some 8192 ∷ []; freed = []; bytes = λ a. 7 }

abbrev empty : Pool
empty = new_pool 4096 1024

abbrev pool : Pool
pool = record empty { first = record empty.first { last = 4224 } }

abbrev full : Array
full = record { at = 4152; elts = 4192; nelts = 4; size = 8; nalloc = 4 }

abbrev no_regions : List Region
no_regions = []

empty-IsPool : IsPool empty
empty-IsPool = record {
  sound = (omega arith, tt, tt);
  even = refl;
  room = ground arith;
  here = omega arith;
}

pool-IsPool : IsPool pool
pool-IsPool = record {
  sound = (omega arith, tt, tt);
  even = refl;
  room = ground arith;
  here = omega arith;
}

full-Holds : Holds pool full no_regions
full-Holds = record {
  sound = pool-IsPool;
  fits = omega arith;
  word = omega arith;
  live = (inl (omega arith), tt, tt);
}

array_push-Outcome_example : Outcome 1 libc pool full no_regions (array_push libc pool full)
array_push-Outcome_example =
    array_push-Outcome libc pool full no_regions full-Holds tt
      (record { even = refl; word = omega arith; apart = (ground arith, tt) }) (omega arith)
      (omega arith) (omega arith) (ground arith)

array_create-Created_example : Created 4 8 no_regions (array_create libc empty 4 8)
unfolding libcn.Pool.palloc
array_create-Created_example =
    array_create-Created libc empty 4 8 no_regions empty-IsPool tt
      (record { even = refl; word = omega arith; apart = (ground arith, tt) })
      (record { even = refl; word = omega arith; apart = (ground arith, tt) }) (ground arith)
      (omega arith) (ground arith)
