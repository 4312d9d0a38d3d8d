-- ===== src/PartList/Tests.antt =====
-- A list with one full part of four places of eight bytes in a pool of 1024 bytes at address 4096.
use libcn.Prelude.{refl, inl, some, List, [], ◌∷◌, arith}
use libcn.Alloc.{Libc}
use libcn.Pool.{Pool, new_pool}
use libcn.Pool.Blocks.{Region}
use package.libcn.PartList.{PartList, list_push}
use package.libcn.PartList.Push.{Holds, Outcome, list_push-Outcome}

abbrev libc : Libc
libc = record { answers = some 8192 ∷ []; freed = []; bytes = λ a. 7 }

abbrev pool : Pool
pool = let empty = new_pool 4096 1024 in record empty { first = record empty.first { last = 4240 } }

abbrev full : PartList
full = record {
  at = 4152;
  part = record { at = 4160; elts = 4208; nelts = 4 };
  later = [];
  size = 8;
  nalloc = 4;
}

abbrev no_regions : List Region
no_regions = []

full-Holds : Holds pool full no_regions
full-Holds = record {
  sound = record {
    sound = (omega arith, tt, tt);
    even = refl;
    room = ground arith;
    here = omega arith;
  };
  first = omega arith;
  filled = tt;
  word = omega arith;
  live = (inl (omega arith), (ground arith, tt), (inl (omega arith), tt, tt));
}

list_push-Outcome_example : Outcome full no_regions (list_push libc pool full)
unfolding libcn.Pool.palloc
list_push-Outcome_example =
    list_push-Outcome libc pool full no_regions full-Holds
      (record { even = refl; word = omega arith; apart = (ground arith, tt) })
      (record { even = refl; word = omega arith; apart = (ground arith, tt) }) (ground arith)
      (omega arith) (ground arith)
