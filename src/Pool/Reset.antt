-- ===== src/Pool/Reset.antt =====
-- A pool from its creation to its end: `create_pool`, `reset_pool`, `destroy_pool`.
use mathlib.Core.List.{reverse_aux}
use libcn.Prelude.{
  ℕ, ◌+◌, ◌-◌, ◌%◌, ◌^◌, ◌≤◌, ◌<◌, ◌≡◌, refl, ap, ◌∙◌, Ptr, null, false, Option, some, List, [],
  ◌∷◌, arith, map, ◌==◌, if◌then◌else◌, has, Bool-cases, inl, inr,
}
use libcn.Alloc.{Libc, memalign}
use package.libcn.Pool.{
  sizeof_data, sizeof_pool, Block, Large, Pool, blocks, new_pool, create_pool, free_larges,
  free_blocks, destroy_pool, reset_block, reset_pool,
}
use package.libcn.Pool.Blocks.{ApartAll, AreBlocks, Region, region}
use package.libcn.Pool.Serve.{IsPool, Live}

-- The part of a `pool_t` behind its `pool_data_t`: the fields `max`, `current` and `large`.
abbrev pub header : Pool → Region
header p = region (p.first.base + sizeof_data) (sizeof_pool - sizeof_data)

-- `create_pool` on memory that is aligned, of a size that is a multiple of 8 and holds at least a
-- `pool_t`, gives a sound pool in which nothing but its own header is live.
pub create_pool-IsPool :
    (s : Libc) (size a : ℕ) (answers : List (Option Ptr))
    → a % 16 ≡ 0
    → size % 8 ≡ 0
    → sizeof_pool ≤ size
    → a + size < 2 ^ 64
    → (p : Pool) × (create_pool (record s { answers = some a ∷ answers }) size
        ≡ (some p, record s { answers = answers }))
      × IsPool p
      × Live (blocks p) (header p ∷ [])
unfolding create_pool memalign
create_pool-IsPool s size a answers ea es big word = (
  new_pool a size,
  refl,
  record { sound = (omega arith, tt, tt); even = ea; room = ground arith; here = omega arith },
  (inl (omega arith), tt, tt),
)

ApartAll-reset :
    (b : Block) (bs : List Block) → ApartAll b bs → ApartAll (reset_block b) (map reset_block bs)
ApartAll-reset b [] a = tt
ApartAll-reset b (c ∷ bs) (a, as') = (a, ApartAll-reset b bs as')

AreBlocks-reset : (bs : List Block) → AreBlocks bs → AreBlocks (map reset_block bs)
AreBlocks-reset [] v = tt
AreBlocks-reset (b ∷ bs) (v, a, vs) = (omega arith, ApartAll-reset b bs a, AreBlocks-reset bs vs)

reset-bases : (bs : List Block) → map (λ b. b.base) (map reset_block bs) ≡ map (λ b. b.base) bs
reset-bases [] = refl
reset-bases (b ∷ bs) = ap (λ xs. b.base ∷ xs) (reset-bases bs)

-- What `pool->large` holds that is not freed, last first.
abbrev pub large_allocs : List Large → List Ptr
large_allocs [] = []
large_allocs (l ∷ ls) = if l.alloc == null then large_allocs ls else l.alloc ∷ large_allocs ls

free_larges-freed :
    (s : Libc) (ls : List Large) → (free_larges s ls).freed ≡ reverse_aux (large_allocs ls) s.freed
unfolding free_larges
free_larges-freed s [] = refl
free_larges-freed s (l ∷ ls) = elim (Bool-cases (l.alloc == null)) [
  | inl e ↦ rw (e, free_larges) (free_larges-freed s ls)
  | inr e ↦ rw (e, free_larges) (free_larges-freed (record s { freed = l.alloc ∷ s.freed }) ls)
]

free_blocks-freed :
    (s : Libc) (bs : List Block)
    → has null (map (λ b. b.base) bs) ≡ false
    → (free_blocks s bs).freed ≡ reverse_aux (map (λ b. b.base) bs) s.freed
unfolding free_blocks
free_blocks-freed s [] n = refl
free_blocks-freed s (b ∷ bs) n =
    let used : (b.base == null) ≡ false = ground arith in
    rw (used, free_blocks)
      (free_blocks-freed (record s { freed = b.base ∷ s.freed }) bs (ground arith))

-- `destroy_pool` frees the large allocations that are still there, then the blocks, each once and
-- nothing else.
pub destroy_pool-freed :
    (s : Libc) (p : Pool)
    → has null (map (λ b. b.base) (blocks p)) ≡ false
    → (destroy_pool s p).freed
      ≡ reverse_aux (map (λ b. b.base) (blocks p)) (reverse_aux (large_allocs p.large) s.freed)
unfolding destroy_pool
destroy_pool-freed s p n =
    free_blocks-freed (free_larges s p.large) (blocks p) n
    ∙ ap (reverse_aux (map (λ b. b.base) (blocks p))) (free_larges-freed s p.large)

-- `reset_pool` keeps a sound pool sound and its blocks and `max` in place, leaves of the regions
-- only the pool's own header live, starts again at the first block with no large allocations, and
-- frees those that were there, each once.
pub reset_pool-IsPool :
    (s : Libc) (p : Pool)
    → IsPool p
    → IsPool (reset_pool s p).0
      × Live (blocks (reset_pool s p).0) (header p ∷ [])
      × (map (λ b. b.base) (blocks (reset_pool s p).0) ≡ map (λ b. b.base) (blocks p))
      × ((reset_pool s p).0.current ≡ 0)
      × ((reset_pool s p).0.large ≡ [])
      × ((reset_pool s p).1.freed ≡ reverse_aux (large_allocs p.large) s.freed)
unfolding reset_pool
reset_pool-IsPool s p v = (
  record {
    sound = AreBlocks-reset (blocks p) v.sound;
    even = v.even;
    room = v.room;
    here = omega arith;
  },
  (inl (omega arith), tt, tt),
  reset-bases (blocks p),
  refl,
  refl,
  free_larges-freed s p.large,
)
