-- ===== src/Pool.antt =====
-- palloc.h and palloc.c: memory pools. A pool is a chain of blocks, the first of which holds the
-- `pool_t` itself, and a list of large allocations that the C library made.
use libcn.Prelude.{
  ℕ, zero, suc, ◌+◌, ◌-◌, ◌*◌, ◌/◌, Ptr, null, Bool, true, false, Option, none, some, List, [], ◌∷◌,
  ltb, leb, ◌==◌, if◌then◌else◌, map, ◌++◌, u32, sub64,
}
pub mod Blocks
mod Grow
pub mod Serve
mod Reset
mod Release
mod Tests
use mathlib.Core.Option
use libcn.Alloc.{Libc, alloc, memalign, free, zero_fill}

-- `sizeof(pool_data_t)`, `sizeof(pool_t)`, `sizeof(pool_large_t)` under the System V ABI of x86-64.
abbrev pub sizeof_data : ℕ
sizeof_data = 32

abbrev pub sizeof_pool : ℕ
sizeof_pool = 56

abbrev pub sizeof_large : ℕ
sizeof_large = 16

abbrev pub max_alloc_from_pool : ℕ
max_alloc_from_pool = 4096 - 1

abbrev pub default_pool_size : ℕ
default_pool_size = 16 * 1024

abbrev pub alignment : ℕ
alignment = 8

abbrev pub pool_alignment : ℕ
pool_alignment = 16

-- `(p + (a - 1)) & ~(a - 1)` for a power of two `a`.
abbrev pub align_ptr : Ptr → ℕ → Ptr
align_ptr p a = (p + (a - 1)) / a * a

-- `pool_data_t` with the address of its block; the order of the list is the `next` link.
pub record Block : Type 0 where
  pub base : Ptr
  pub last : Ptr
  pub end : Ptr
  pub failed : ℕ

-- `pool_large_t`, with the address at which it stands.
pub record Large : Type 0 where
  pub at : Ptr
  pub alloc : Ptr

-- `pool_t`: `current` is an index into the chain of blocks.
pub record Pool : Type 0 where
  pub first : Block
  pub others : List Block
  pub max : ℕ
  pub current : ℕ
  pub large : List Large

abbrev pub new_pool : Ptr → ℕ → Pool
new_pool a size =
    let rest = sub64 size sizeof_pool in
    record {
      first = record { base = a; last = a + sizeof_pool; end = a + size; failed = 0 };
      others = [];
      max = if ltb rest max_alloc_from_pool then rest else max_alloc_from_pool;
      current = 0;
      large = [];
    }

unfoldable pub create_pool : Libc → ℕ → Option Pool × Libc
unfolding memalign
create_pool s size =
    let (p, s') = memalign s pool_alignment size in
    elim p [ none ↦ (none, s') | some a ↦ (some (new_pool a size), s') ]

-- The loop over `pool->large` that frees what is still allocated.
unfoldable pub free_larges : Libc → List Large → Libc
free_larges s [] = s
free_larges s (l ∷ ls) = free_larges (if l.alloc == null then s else free s l.alloc) ls

-- The loop over the blocks of `destroy_pool`.
unfoldable pub free_blocks : Libc → List Block → Libc
free_blocks s [] = s
free_blocks s (b ∷ bs) = free_blocks (free s b.base) bs

unfoldable pub destroy_pool : Libc → Pool → Libc
unfolding free_larges free_blocks
destroy_pool s pool = free_blocks (free_larges s pool.large) (pool.first ∷ pool.others)

abbrev pub reset_block : Block → Block
reset_block b = record b { last = b.base + sizeof_pool; failed = 0 }

unfoldable pub reset_pool : Libc → Pool → Pool × Libc
unfolding free_larges
reset_pool s pool = (
  record pool {
    first = reset_block pool.first;
    others = map reset_block pool.others;
    current = 0;
    large = [];
  },
  free_larges s pool.large,
)

-- The address at which a block would serve a request.
abbrev pub place : Bool → Block → Ptr
place align b = if align then align_ptr b.last alignment else b.last

-- The `do … while` of `palloc_small`, over the blocks from `pool->current` on.
unfoldable pub alloc_from : ℕ → Bool → List Block → Option (Ptr × List Block)
alloc_from size align [] = none
alloc_from size align (b ∷ bs) =
    let m = place align b in
    let rest = alloc_from size align bs in
    if leb size (sub64 b.end m)
    then some (m, record b { last = m + size } ∷ bs)
    else elim rest [ none ↦ none | some (q, bs') ↦ some (q, b ∷ bs') ]

-- The same past the first `skip` blocks.
unfoldable pub alloc_past : ℕ → ℕ → Bool → List Block → Option (Ptr × List Block)
unfolding alloc_from
alloc_past zero size align bs = alloc_from size align bs
alloc_past (suc skip) size align [] = none
alloc_past (suc skip) size align (b ∷ bs) = elim (alloc_past skip size align bs) [
  | none ↦ none
  | some (q, bs') ↦ some (q, b ∷ bs')
]

-- The `for` of `palloc_block` from the block of index `i` on, which counts a failure of each block
-- but the last: the blocks, and `pool->current`.
unfoldable pub count_failures : ℕ → ℕ → List Block → List Block × ℕ
count_failures i current [] = ([], current)
count_failures i current (b ∷ []) = (b ∷ [], current)
count_failures i current (b ∷ b' ∷ bs) =
    let (rest, c) = count_failures (suc i) (if ltb 4 b.failed then suc i else current) (b' ∷ bs) in
    (record b { failed = u32 (b.failed + 1) } ∷ rest, c)

-- The same past the first `skip` blocks.
unfoldable pub count_past : ℕ → ℕ → ℕ → List Block → List Block × ℕ
unfolding count_failures
count_past zero i current bs = count_failures i current bs
count_past (suc skip) i current [] = ([], current)
count_past (suc skip) i current (b ∷ bs) =
    let (rest, c) = count_past skip (suc i) current bs in (b ∷ rest, c)

abbrev pub blocks : Pool → List Block
blocks pool = pool.first ∷ pool.others

-- `pool` with the chain `bs`, which is not empty.
abbrev pub with_blocks : Pool → List Block → Pool
with_blocks pool [] = pool
with_blocks pool (b ∷ bs) = record pool { first = b; others = bs }

abbrev pub new_block : Ptr → ℕ → ℕ → Block
new_block a psize size = record {
  base = a;
  last = align_ptr (a + sizeof_data) alignment + size;
  end = a + psize;
  failed = 0;
}

unfoldable pub palloc_block : Libc → Pool → ℕ → Option Ptr × Pool × Libc
unfolding memalign count_past
palloc_block s pool size =
    let psize = sub64 pool.first.end pool.first.base in
    let (m, s') = memalign s pool_alignment psize in
    elim m [
      | none ↦ (none, pool, s')
      | some a ↦
          let (bs, c) = count_past pool.current 0 pool.current (blocks pool) in
          (
            some (align_ptr (a + sizeof_data) alignment),
            record (with_blocks pool (bs ++ new_block a psize size ∷ [])) { current = c },
            s',
          )
    ]

unfoldable pub palloc_small : Libc → Pool → ℕ → Bool → Option Ptr × Pool × Libc
unfolding alloc_past palloc_block
palloc_small s pool size align =
    let grown = palloc_block s pool size in
    elim (alloc_past pool.current size align (blocks pool)) [
      | none ↦ grown
      | some (m, bs) ↦ (some m, with_blocks pool bs, s)
    ]

-- The `for` of `palloc_large`: the first empty entry among the first five takes `p`.
unfoldable pub reuse_large : ℕ → Ptr → List Large → Option (List Large)
reuse_large n p [] = none
reuse_large n p (l ∷ ls) =
    let rest = reuse_large (suc n) p ls in
    if l.alloc == null
    then some (record l { alloc = p } ∷ ls)
    else if ltb 3 n
    then none
    else Option.map (λ ls'. l ∷ ls') rest

-- The end of `palloc_large` and of `pmemalign`: an entry for `p` in front of the others.
unfoldable pub add_large : Libc → Pool → Ptr → Option Ptr × Pool × Libc
unfolding palloc_small
add_large s pool p =
    let (large, pool', s') = palloc_small s pool sizeof_large true in
    elim large [
      | none ↦ (none, pool', free s' p)
      | some a ↦ (some p, record pool' { large = record { at = a; alloc = p } ∷ pool'.large }, s')
    ]

unfoldable pub palloc_large : Libc → Pool → ℕ → Option Ptr × Pool × Libc
unfolding alloc reuse_large add_large
palloc_large s pool size =
    let (p, s') = alloc s size in
    elim p [
      | none ↦ (none, pool, s')
      | some a ↦
          let added = add_large s' pool a in
          elim (reuse_large 0 a pool.large) [
            | some ls ↦ (some a, record pool { large = ls }, s')
            | none ↦ added
          ]
    ]

unfoldable pub palloc : Libc → Pool → ℕ → Option Ptr × Pool × Libc
unfolding palloc_small palloc_large
palloc s pool size =
    if leb size pool.max then palloc_small s pool size true else palloc_large s pool size

unfoldable pub pnalloc : Libc → Pool → ℕ → Option Ptr × Pool × Libc
unfolding palloc_small palloc_large
pnalloc s pool size =
    if leb size pool.max then palloc_small s pool size false else palloc_large s pool size

unfoldable pub pmemalign : Libc → Pool → ℕ → ℕ → Option Ptr × Pool × Libc
unfolding memalign add_large
pmemalign s pool size align =
    let (p, s') = memalign s align size in
    elim p [ none ↦ (none, pool, s') | some a ↦ add_large s' pool a ]

-- The `for` of `pfree`: the entry that holds `p` is emptied; `none` if there is none.
unfoldable pub free_large : Ptr → List Large → Option (List Large)
free_large p [] = none
free_large p (l ∷ ls) =
    let rest = Option.map (λ ls'. l ∷ ls') (free_large p ls) in
    if p == l.alloc then some (record l { alloc = null } ∷ ls) else rest

-- `true` for the return of 0, `false` for -1.
unfoldable pub pfree : Libc → Pool → Ptr → Bool × Pool × Libc
unfolding free_large
pfree s pool p = elim (free_large p pool.large) [
  | none ↦ (false, pool, s)
  | some ls ↦ (true, record pool { large = ls }, free s p)
]

unfoldable pub pcalloc : Libc → Pool → ℕ → Option Ptr × Pool × Libc
unfolding palloc
pcalloc s pool size =
    let (p, pool', s') = palloc s pool size in
    elim p [
      | none ↦ (none, pool', s')
      | some a ↦ (some a, pool', record s' { bytes = zero_fill s'.bytes a size })
    ]
