-- ===== src/Array/Memory.antt =====
-- The memory of an array in a pool: its growth in place, and what an allocation leaves alone.
use libcn.Prelude.{
  ℕ, ◌+◌, ◌^◌, ◌≤◌, ◌<◌, ◌≡◌, refl, ◌⊎◌, inl, inr, Ptr, Bool, true, Option, none, some, List, [],
  ◌∷◌, arith, leb,
}
use libcn.Alloc.{Libc, memalign}
use libcn.Pool.{Block, Pool, blocks, with_blocks, palloc, palloc_small, palloc_block, alloc_past}
use libcn.Pool.Blocks.{IsBlock, Apart, ApartAll, AreBlocks, Region, region, In, InSome, Disjoint}
use libcn.Pool.Serve.{
  IsPool, DisjointAll, Live, MayAnswer, first_answer, Granted, palloc_small-Granted,
}
use package.libcn.Array.{set_last}

-- Regions that are not empty.
abbrev pub Solid : List Region → Type 0
Solid [] = Unit
Solid (r ∷ rs) = (0 < r.size) × Solid rs

In-last :
    (b : Block) (r : Region) (bs : List Block)
    → IsBlock b
    → ApartAll b bs
    → AreBlocks bs
    → InSome r bs
    → r.at + r.size ≡ b.last
    → ⊥
In-last b r [] v a vs i e = i
In-last b r (c ∷ bs) v (a, as') (vc, _, vs) (inl i) e =
    let low = v.low in let high = v.high in let high' = vc.high in ends a i
  where
    ends : Apart b c → In r c → ⊥
    ends (inl h) (low', up') = omega (arith, e, v.high, v.low, vc.high)
    ends (inr h) (low', up') = omega (arith, e, v.high, v.low, vc.high)
In-last b r (c ∷ bs) v (a, as') (vc, _, vs) (inr i) e = In-last b r bs v as' vs i e

-- A region that ends where the first block has been used up to lies in that block.
pub In-first :
    (p : Pool) (r : Region)
    → IsPool p
    → InSome r (blocks p)
    → r.at + r.size ≡ p.first.last
    → In r p.first
In-first p r v (inl i) e = i
In-first p r v (inr i) e = absurd (In-last p.first r p.others v.sound.0 v.sound.1 v.sound.2 i e)

module _ (p : Pool) (k : ℕ) (v : IsPool p) (fits : p.first.last + k ≤ p.first.end) where
  pub IsPool-extend : IsPool (set_last p (p.first.last + k))
  IsPool-extend =
      let (b, apart, bs) = v.sound in
      let low = b.low in
      record {
        sound = (
          record { low = omega arith; high = fits; wide = b.wide; even = b.even; word = b.word },
          apart,
          bs,
        );
        even = v.even;
        room = v.room;
        here = v.here;
      }

  pub InSome-extend :
      (t : Region) → InSome t (blocks p) → InSome t (blocks (set_last p (p.first.last + k)))
  InSome-extend t (inl i) = inl (omega arith)
  InSome-extend t (inr i) = inr i

  Disjoint-extend :
      (e n : ℕ) (t : Region)
      → e + n ≡ p.first.last
      → 0 < t.size
      → InSome t (blocks p)
      → In (region e n) p.first
      → Disjoint t (region e n)
      → Disjoint t (region e (n + k))
  Disjoint-extend e n t end solid i j (inl d) = inl d
  Disjoint-extend e n t end solid (inl i) j (inr d) = absurd (omega arith)
  Disjoint-extend e n t end solid (inr i) j (inr d) =
      apart (other_block p.others v.sound.1 v.sound.2 i)
    where
      other_block :
          (bs : List Block)
          → ApartAll p.first bs
          → AreBlocks bs
          → InSome t bs
          → (p.first.end ≤ t.at) ⊎ (t.at + t.size ≤ p.first.base)
      other_block [] a w s = absurd s
      other_block (c ∷ bs) (a, as') (vc, _, vs) (inl (lo, hi)) = side a
        where
          side : Apart p.first c → (p.first.end ≤ t.at) ⊎ (t.at + t.size ≤ p.first.base)
          side (inl h) = inl (omega arith)
          side (inr h) = inr (omega (arith, vc.high))
      other_block (c ∷ bs) (a, as') (vc, _, vs) (inr s) = other_block bs as' vs s

      apart : (p.first.end ≤ t.at) ⊎ (t.at + t.size ≤ p.first.base) → Disjoint t (region e (n + k))
      apart (inl h) = inr (omega arith)
      apart (inr h) = inl (omega arith)

  DisjointAll-extend :
      (e n : ℕ) (rs : List Region)
      → e + n ≡ p.first.last
      → In (region e n) p.first
      → Solid rs
      → Live (blocks p) rs
      → DisjointAll (region e n) rs
      → DisjointAll (region e (n + k)) rs × Live (blocks (set_last p (p.first.last + k))) rs
  DisjointAll-extend e n [] end j solid live d = (tt, tt)
  DisjointAll-extend e n (t ∷ rs) end j (s, solid) (i, ds, live) (d, d') =
      let (d'', live') = DisjointAll-extend e n rs end j solid live d' in
      ((Disjoint-extend e n t end s i j d, d''), (InSome-extend t i, ds, live'))

  -- The last region of the first block grows.
  pub Live-extend :
      (e n : ℕ) (rs : List Region)
      → e + n ≡ p.first.last
      → Solid rs
      → Live (blocks p) (region e n ∷ rs)
      → Live (blocks (set_last p (p.first.last + k))) (region e (n + k) ∷ rs)
  Live-extend e n rs end solid (i, d, live) =
      let j = In-first p (region e n) v i end in
      let (d', live') = DisjointAll-extend e n rs end j solid live d in
      (inl (omega arith), d', live')

pub InSome-word :
    (r : Region) (bs : List Block) → AreBlocks bs → InSome r bs → r.at + r.size < 2 ^ 64
InSome-word r [] v i = absurd i
InSome-word r (b ∷ bs) (v, _, vs) (inl i) = omega (arith, v.high, v.word)
InSome-word r (b ∷ bs) (v, _, vs) (inr i) = InSome-word r bs vs i

-- Bytes are written by no request to a pool.
palloc_block-bytes : (s : Libc) (p : Pool) (size : ℕ) → (palloc_block s p size).2.bytes ≡ s.bytes
unfolding palloc_block memalign
palloc_block-bytes s p size = answered s.answers
  where
    answered :
        (answers : List (Option Ptr))
        → (palloc_block (record s { answers = answers }) p size).2.bytes ≡ s.bytes
    answered [] = refl
    answered (none ∷ later) = refl
    answered (some a ∷ later) = refl

palloc_small-bytes :
    (s : Libc) (p : Pool) (size : ℕ) (align : Bool)
    → (palloc_small s p size align).2.bytes ≡ s.bytes
unfolding palloc_small
palloc_small-bytes s p size align = searched (alloc_past p.current size align (blocks p))
  where
    searched :
        (o : Option (Ptr × List Block))
        → (elim o as (λ _. Option Ptr × Pool × Libc) [
          | none ↦ palloc_block s p size
          | some (m, bs) ↦ (some m, with_blocks p bs, s)
        ]).2.bytes
          ≡ s.bytes
    searched none = palloc_block-bytes s p size
    searched (some (m, bs)) = refl

-- A request of up to `max` bytes is granted as a small one.
pub palloc-Granted :
    (size : ℕ) (s : Libc) (p : Pool)
    → IsPool p
    → MayAnswer p (first_answer s.answers)
    → size ≤ p.max
    → Granted true size p (palloc s p size) × ((palloc s p size).2.bytes ≡ s.bytes)
unfolding palloc
palloc-Granted size s p v may le =
    let small : leb size p.max ≡ true = ground arith in
    rw small (palloc_small-Granted true size s p v may le, palloc_small-bytes s p size true)
