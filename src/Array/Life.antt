-- ===== src/Array/Life.antt =====
-- `array_create` and `array_destroy`: what they do to the regions that a pool has handed out.
use native.Mathlib.Nat.{mul_comm}
use libcn.Prelude.{
  ℕ, ◌+◌, ◌*◌, ◌^◌, ◌≤◌, ◌<◌, ◌≡◌, refl, inl, inr, Ptr, true, Option, none, some, List, [], ◌∷◌,
  arith, ◌==◌, if◌then◌else◌, Bool-cases, u64, mul64, sub64,
}
use libcn.Alloc.{Libc}
use libcn.Pool.{Pool, blocks, palloc}
use libcn.Pool.Blocks.{Region, region, In, InSome, Disjoint}
use libcn.Pool.Serve.{IsPool, DisjointAll, Live, MayAnswer, first_answer, Granted}
use package.libcn.Array.{
  Array, sizeof_array, set_last, init_at, if_ok, array_init, create_at, array_create, array_destroy,
}
use package.libcn.Array.Memory.{Solid, In-first, InSome-word, palloc-Granted}
use package.libcn.Array.Push.{memory, Holds}

abbrev pub header : Array → Region
header a = region a.at sizeof_array

-- An array without elements and with `n` places of `size` bytes, which with its header overlaps none
-- of the regions `rs`; on a failure these are as they were.
abbrev pub Created : ℕ → ℕ → List Region → Option Array × Pool × Libc → Type 0
Created n size rs (none, p, s) = IsPool p × Live (blocks p) rs
Created n size rs (some a, p, s) =
    Holds p a (header a ∷ rs) × (a.nelts ≡ 0) × (a.size ≡ size) × (a.nalloc ≡ n)

init_at-Created :
    (at n size : ℕ) (p : Pool) (rs : List Region) (r : Option Ptr × Pool × Libc)
    → IsPool p
    → Live (blocks p) (region at sizeof_array ∷ rs)
    → Granted true (size * n) p r
    → n < 2 ^ 32
    → Created n size rs (if_ok (init_at at n size r))
unfolding init_at
init_at-Created at n size p rs (none, q, t) v live g lt = rw g (v, live.2)
init_at-Created at n size p rs (some a, q, t) v live (v', _, _, kept) lt = (
  record {
    sound = v';
    fits = omega arith;
    word = lt;
    live = kept (region at sizeof_array ∷ rs) live;
  },
  refl,
  refl,
  refl,
)

create_at-Created :
    (p : Pool) (n size : ℕ) (rs : List Region) (r : Option Ptr × Pool × Libc)
    → IsPool p
    → Live (blocks p) rs
    → Granted true sizeof_array p r
    → MayAnswer r.1 (first_answer r.2.answers)
    → n < 2 ^ 32
    → size * n ≤ p.max
    → Created n size rs (create_at n size r)
unfolding create_at array_init
create_at-Created p n size rs (none, q, t) v live g may lt small = rw g (v, live)
create_at-Created p n size rs (some a, q, t) v live (v', _, same, kept) may lt small =
    let room = v.room in
    let word = v.sound.0.word in
    let bytes : mul64 n size ≡ size * n = rw (mul_comm n size) (omega arith) in
    let (g, _) = palloc-Granted (size * n) t q v' may (omega arith) in
    rw bytes (init_at-Created a n size q rs (palloc t q (size * n)) v' (kept rs live) g lt)

-- In a sound pool, for an array that is below the pool's limit for small requests, where the allocator
-- answers both requests with unused memory or not at all: `array_create` gives an empty array with
-- places for `n` elements, which with its header lies in the pool and overlaps no region handed out
-- before, or NULL, and those regions stay.
pub array_create-Created :
    (s : Libc) (p : Pool) (n size : ℕ) (rs : List Region)
    → IsPool p
    → Live (blocks p) rs
    → MayAnswer p (first_answer s.answers)
    → MayAnswer (palloc s p sizeof_array).1 (first_answer (palloc s p sizeof_array).2.answers)
    → sizeof_array ≤ p.max
    → n < 2 ^ 32
    → size * n ≤ p.max
    → Created n size rs (array_create s p n size)
unfolding array_create
array_create-Created s p n size rs v live may may' header_small lt small =
    create_at-Created p n size rs (palloc s p sizeof_array) v live
      (palloc-Granted sizeof_array s p v may header_small).0 may' lt small

-- What ends where the first block has been used up to can be given back.
module _ (p : Pool) (r : Region) (v : IsPool p) (end : r.at + r.size ≡ p.first.last)
    (inside : In r p.first) where
  IsPool-shrink : IsPool (set_last p r.at)
  IsPool-shrink =
      let (b, apart, bs) = v.sound in
      let high = b.high in
      record {
        sound = (
          record {
            low = omega arith;
            high = omega arith;
            wide = b.wide;
            even = b.even;
            word = b.word;
          },
          apart,
          bs,
        );
        even = v.even;
        room = v.room;
        here = v.here;
      }

  InSome-shrink :
      (t : Region)
      → 0 < t.size
      → Disjoint t r
      → InSome t (blocks p)
      → InSome t (blocks (set_last p r.at))
  InSome-shrink t solid d (inr i) = inr i
  InSome-shrink t solid (inl d) (inl i) = inl (omega arith)
  InSome-shrink t solid (inr d) (inl i) = absurd (omega arith)

  Live-shrink :
      (rs : List Region)
      → Solid rs
      → DisjointAll r rs
      → Live (blocks p) rs
      → Live (blocks (set_last p r.at)) rs
  Live-shrink [] solid d live = tt
  Live-shrink (t ∷ rs) (s, solid) (d, ds) (i, apart, live) =
      (InSome-shrink t s d i, apart, Live-shrink rs solid ds live)

-- A region is given back if it is the last of the first block.
given_back :
    (p : Pool) (r : Region) (rs : List Region)
    → IsPool p
    → Solid rs
    → Live (blocks p) (r ∷ rs)
    → (let q = if r.at + r.size == p.first.last then set_last p r.at else p in
        IsPool q × Live (blocks q) rs)
given_back p r rs v solid (i, d, live) = elim (Bool-cases (r.at + r.size == p.first.last)) [
  | inl e ↦
      let end : r.at + r.size ≡ p.first.last = ground arith in
      let inside = In-first p r v i end in
      rw e (IsPool-shrink p r v end inside, Live-shrink p r v end inside rs solid d live)
  | inr e ↦ rw e (v, live)
]

sub64_lem : (a b c : ℕ) → a + b ≡ c → c < 2 ^ 64 → sub64 c b ≡ a
sub64_lem a b c e lt = omega arith

-- What `array_destroy` computes without overflow.
array_destroy_lem :
    (p : Pool) (a : Array) (rs : List Region)
    → IsPool p
    → Live (blocks p) (memory a ∷ header a ∷ rs)
    → (let p1 = if a.elts + a.size * a.nalloc == p.first.last then set_last p a.elts else p in
        array_destroy p a ≡ (if a.at + sizeof_array == p1.first.last then set_last p1 a.at else p1))
unfolding array_destroy
array_destroy_lem p a rs v (i, _, (j, _, _)) =
    let word = InSome-word (memory a) (blocks p) v.sound i in
    let word' = InSome-word (header a) (blocks p) v.sound j in
    let product : mul64 a.size a.nalloc ≡ a.size * a.nalloc = omega arith in
    let sum : u64 (a.elts + a.size * a.nalloc) ≡ a.elts + a.size * a.nalloc = omega arith in
    let sum' : u64 (a.at + sizeof_array) ≡ a.at + sizeof_array = omega arith in
    elim (Bool-cases (a.elts + a.size * a.nalloc == p.first.last)) [
      | inl e ↦
          let end : a.elts + a.size * a.nalloc ≡ p.first.last = ground arith in
          let back : sub64 p.first.last (a.size * a.nalloc) ≡ a.elts =
            sub64_lem a.elts (a.size * a.nalloc) p.first.last end (omega arith) in
          rw (product, sum, e, back, sum') refl
      | inr e ↦ rw (product, sum, e, sum') refl
    ]

-- `array_destroy` of an array in a sound pool keeps the pool sound, and all other regions that are not
-- empty stay handed out and apart.
pub array_destroy-Live :
    (p : Pool) (a : Array) (rs : List Region)
    → IsPool p
    → Solid rs
    → Live (blocks p) (memory a ∷ header a ∷ rs)
    → IsPool (array_destroy p a) × Live (blocks (array_destroy p a)) rs
array_destroy-Live p a rs v solid live =
    let (v1, live1) = given_back p (memory a) (header a ∷ rs) v (omega arith, solid) live in
    let p1 = if a.elts + a.size * a.nalloc == p.first.last then set_last p a.elts else p in
    rw (array_destroy_lem p a rs v live) (given_back p1 (header a) rs v1 solid live1)
