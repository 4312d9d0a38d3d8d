-- ===== src/Pool/Serve.antt =====
-- A pool hands out regions of its blocks that no live region overlaps.
use libcn.Prelude.{
  ℕ, ◌+◌, ◌-◌, ◌%◌, ◌^◌, ◌≤◌, ◌<◌, ◌≡◌, refl, Ptr, Bool, true, Option, none, some, List, [], ◌∷◌,
  ◌++◌, arith, length, length-append, sub64,
}
use libcn.Alloc.{Libc, memalign}
use package.libcn.Pool.{
  sizeof_data, sizeof_pool, alignment, align_ptr, Block, Pool, blocks, with_blocks, new_block,
  alloc_past, count_past, palloc_block, palloc_small,
}
use package.libcn.Pool.Blocks.{
  ApartAll, AreBlocks, Region, region, InSome, Disjoint, InSome-apart, Carved, Served,
  alloc_past-Served, SameFrame-length,
}
use package.libcn.Pool.Grow.{
  Same, Same-length, ApartAll-Same, count_past-Same, count_past-current, AreBlocks-Same,
  InSome-Same, AreBlocks-append, InSome-append, InSome-last, new_block-IsBlock,
}

-- The blocks are sound and do not overlap, `current` is one of them, and a request of up to `max`
-- bytes fits into a new block.
pub record IsPool (p : Pool) : Type 0 where
  pub sound : AreBlocks (blocks p)
  pub even : p.first.base % 16 ≡ 0
  pub room : p.max + sizeof_pool ≤ p.first.end - p.first.base
  pub here : p.current ≤ length p.others

abbrev pub DisjointAll : Region → List Region → Type 0
DisjointAll r [] = Unit
DisjointAll r (t ∷ ts) = Disjoint t r × DisjointAll r ts

-- Regions that were handed out: each in a block, no two overlapping.
abbrev pub Live : List Block → List Region → Type 0
Live bs [] = Unit
Live bs (r ∷ rs) = InSome r bs × DisjointAll r rs × Live bs rs

-- What `posix_memalign` may answer: nothing, or memory that is aligned and not in use.
pub record IsFresh (p : Pool) (a : Ptr) : Type 0 where
  pub even : a % 16 ≡ 0
  pub word : a + (p.first.end - p.first.base) < 2 ^ 64
  pub apart : ApartAll (new_block a (p.first.end - p.first.base) 0) (blocks p)

abbrev pub MayAnswer : Pool → Option Ptr → Type 0
MayAnswer p none = Unit
MayAnswer p (some a) = IsFresh p a

-- The result of a request: `NULL` leaves the blocks alone, an address is that of a fresh region.
abbrev pub Granted : Bool → ℕ → Pool → Option Ptr × Pool × Libc → Type 0
Granted align size p (none, q, s) = q ≡ p
Granted align size p (some m, q, s) =
    IsPool q
    × (align ≡ true → m % 8 ≡ 0)
    × (q.max ≡ p.max)
    × ((rs : List Region) → Live (blocks p) rs → Live (blocks q) (region m size ∷ rs))

-- The regions that are live stay so, and the new one overlaps none of them.
Live-keep :
    (r : Region) (bs cs : List Block)
    → ((t : Region) → InSome t bs → InSome t cs × Disjoint t r)
    → (rs : List Region) → Live bs rs
    → DisjointAll r rs × Live cs rs
Live-keep r bs cs kept [] live = (tt, tt)
Live-keep r bs cs kept (t ∷ rs) (i, d, live) =
    let (i', apart) = kept t i in
    let (ds, live') = Live-keep r bs cs kept rs live in ((apart, ds), (i', d, live'))

Carved-Granted :
    (align : Bool) (size : ℕ) (p : Pool) (s : Libc) (m : Ptr) (cs : List Block)
    → IsPool p
    → Carved align size m (blocks p) cs
    → Granted align size p (some m, with_blocks p cs, s)
Carved-Granted align size p s m [] v c = absurd c.inside
Carved-Granted align size p s m (b ∷ cs) v c =
    let len = SameFrame-length (blocks p) (b ∷ cs) c.frame in
    let (e, f, _) = c.frame in
    (
      record { sound = c.blocks; even = omega arith; room = omega arith; here = omega arith },
      c.aligned,
      refl,
      λ rs live.
          let (ds, live') = Live-keep (region m size) (blocks p) (b ∷ cs) c.kept rs live in
          (c.inside, ds, live'),
    )

-- The pool with a new block at `a`, the failure counts of the others counted.
Grown-Granted :
    (align : Bool) (size : ℕ) (p : Pool) (s : Libc) (a c : ℕ) (cs : List Block)
    → IsPool p
    → IsFresh p a
    → size ≤ p.max
    → Same (blocks p) cs
    → c ≤ length (blocks p)
    → Granted align size p (
      some (align_ptr (a + sizeof_data) alignment),
      record (with_blocks p (cs ++ new_block a (sub64 p.first.end p.first.base) size ∷ [])) {
        current = c;
      },
      s,
    )
Grown-Granted align size p s a c [] v f le same lt = absurd same
Grown-Granted align size p s a c (b ∷ cs) v f le same lt =
    let psize : ℕ = sub64 p.first.end p.first.base in
    let n : Block = new_block a psize size in
    let first = v.sound.0 in
    let word = first.word in
    let high = first.high in
    let low = first.low in
    let even = first.even in
    let exact : psize ≡ p.first.end - p.first.base = omega arith in
    let (is, within, aligned) =
      new_block-IsBlock a psize size f.even (omega arith) (omega arith) (omega arith) in
    let apart : ApartAll n (b ∷ cs) =
      ApartAll-Same (new_block a (p.first.end - p.first.base) 0) n (blocks p) (b ∷ cs) refl
        (omega arith) same f.apart in
    let old = AreBlocks-Same (blocks p) (b ∷ cs) same v.sound in
    let len = Same-length (blocks p) (b ∷ cs) same in
    let (e, _, g, _) = same in
    let r = region (align_ptr (a + sizeof_data) alignment) size in
    (
      record {
        sound = AreBlocks-append n (b ∷ cs) is old apart;
        even = omega arith;
        room = omega arith;
        here = omega (arith, length-append cs (n ∷ []));
      },
      λ _. aligned,
      refl,
      λ rs live.
          let (ds, live') =
            Live-keep r (blocks p) ((b ∷ cs) ++ n ∷ [])
              (λ t i.
                let i' = InSome-Same t (blocks p) (b ∷ cs) same i in
                (
                  InSome-append t n (b ∷ cs) i',
                  InSome-apart n r t (b ∷ cs) within is.high apart old i',
                ))
              rs live in
          (InSome-last r n (b ∷ cs) within, ds, live'),
    )

-- The next answer in a list of them.
abbrev pub first_answer : List (Option Ptr) → Option Ptr
first_answer [] = none
first_answer (a ∷ later) = a

answers-Granted :
    (align : Bool) (size : ℕ) (s : Libc) (p : Pool) (answers : List (Option Ptr))
    → IsPool p
    → MayAnswer p (first_answer answers)
    → size ≤ p.max
    → Granted align size p (palloc_block (record s { answers = answers }) p size)
unfolding palloc_block memalign
answers-Granted align size s p [] v may le = refl
answers-Granted align size s p (none ∷ later) v may le = refl
answers-Granted align size s p (some a ∷ later) v may le =
    let counted = count_past p.current 0 p.current (blocks p) in
    let within = v.here in
    let current = count_past-current p.current 0 p.current (blocks p) (omega arith) (omega arith) in
    Grown-Granted align size p (record s { answers = later }) a counted.1 counted.0 v may le
      (count_past-Same p.current 0 p.current (blocks p)) (omega (arith, current.1))

-- Where the allocator answers with unused memory or not at all, `palloc_small` on a sound pool and
-- a request of up to `max` bytes keeps the pool sound; on `NULL` the pool is as before, and an
-- address is a multiple of 8 where alignment was asked for and begins a region of that size that
-- lies in the used part of a block, behind its header, and overlaps no region handed out before.
pub palloc_small-Granted :
    (align : Bool) (size : ℕ) (s : Libc) (p : Pool)
    → IsPool p
    → MayAnswer p (first_answer s.answers)
    → size ≤ p.max
    → Granted align size p (palloc_small s p size align)
unfolding palloc_small
palloc_small-Granted align size s p v may le =
    searched (alloc_past p.current size align (blocks p))
      (alloc_past-Served p.current align size (blocks p) v.sound)
  where
    searched :
        (o : Option (Ptr × List Block))
        → Served align size (blocks p) o
        → Granted align size p
            (elim o [ none ↦ palloc_block s p size | some (m, bs) ↦ (some m, with_blocks p bs, s) ])
    searched none c = answers-Granted align size s p s.answers v may le
    searched (some (m, bs)) c = Carved-Granted align size p s m bs v c
