-- ===== src/Buf/Tests.antt =====
-- A buffer in a pool of 1024 bytes at address 4096.
use libcn.Prelude.{refl, some, List, [], ◌∷◌, arith}
use libcn.Alloc.{Libc}
use libcn.Pool.{Pool, new_pool}
use libcn.Pool.Blocks.{Region}
use package.libcn.Buf.{create_temp_buf}
use package.libcn.Buf.Fresh.{Fresh, create_temp_buf-Fresh}

abbrev libc : Libc
libc = record { answers = some 8192 ∷ []; freed = []; bytes = λ a. 7 }

abbrev pool : Pool
pool = new_pool 4096 1024

abbrev no_regions : List Region
no_regions = []

create_temp_buf-Fresh_example : Fresh 100 no_regions (create_temp_buf libc pool 100)
unfolding libcn.Pool.pcalloc
create_temp_buf-Fresh_example =
    create_temp_buf-Fresh libc pool 100 no_regions
      (record {
        sound = (omega arith, tt, tt);
        even = refl;
        room = ground arith;
        here = omega arith;
      })
      tt (record { even = refl; word = omega arith; apart = (ground arith, tt) })
      (record { even = refl; word = omega arith; apart = (ground arith, tt) }) (ground arith)
      (ground arith)
