-- ===== src/Buf/Fresh.antt =====
-- What `create_temp_buf` gives.
use libcn.Prelude.{ℕ, ◌+◌, ◌≤◌, ◌≡◌, refl, Ptr, true, false, Option, none, some, List, ◌∷◌, arith}
use libcn.Alloc.{Libc, zero_fill}
use libcn.Pool.{Pool, blocks, palloc, pcalloc}
use libcn.Pool.Blocks.{Region, region}
use libcn.Pool.Serve.{IsPool, Live, MayAnswer, first_answer, Granted}
use libcn.Array.Memory.{InSome-word, palloc-Granted}
use package.libcn.Buf.{
  sizeof_buf, Buf, zero_buf, buf_in_memory_only, buf_special, buf_size, filled, temp_buf,
  create_temp_buf,
}

-- An empty buffer in memory of `size` bytes, which with its header is in the pool and overlaps none of
-- the regions `rs`; on a failure these are as they were.
pub record IsEmpty (p : Pool) (b : Buf) (size : ℕ) (rs : List Region) : Type 0 where
  pub sound : IsPool p
  pub live : Live (blocks p) (region b.start size ∷ region b.at sizeof_buf ∷ rs)
  pub empty : buf_size b ≡ 0
  pub ordered : (b.start ≡ b.pos) × (b.pos ≡ b.last) × (b.end ≡ b.last + size)
  pub memory : buf_in_memory_only b ≡ true
  pub plain : buf_special b ≡ false

abbrev pub Fresh : ℕ → List Region → Option Buf × Pool × Libc → Type 0
Fresh size rs (none, p, s) = IsPool p × Live (blocks p) rs
Fresh size rs (some b, p, s) = IsEmpty p b size rs

filled-Fresh :
    (p : Pool) (at size : ℕ) (rs : List Region) (r : Option Ptr × Pool × Libc)
    → IsPool p
    → Live (blocks p) (region at sizeof_buf ∷ rs)
    → Granted true size p r
    → Fresh size rs (filled (zero_buf at) size r)
unfolding buf_size buf_in_memory_only buf_special
filled-Fresh p at size rs (none, q, t) v live g = rw g (v, live.2)
filled-Fresh p at size rs (some a, q, t) v live (v', _, _, kept) =
    let live' = kept (region at sizeof_buf ∷ rs) live in
    let word = InSome-word (region a size) (blocks q) v'.sound live'.0 in
    record {
      sound = v';
      live = live';
      empty = omega arith;
      ordered = (refl, refl, omega arith);
      memory = refl;
      plain = refl;
    }

-- What `pcalloc` clears is not what a pool has handed out.
pcalloc-Granted :
    (s : Libc) (p : Pool) (size : ℕ) (r : Option Ptr × Pool × Libc)
    → Granted true size p r
    → Granted true size p (elim r.0 as (λ _. Option Ptr × Pool × Libc) [
      | none ↦ (none, r.1, r.2)
      | some a ↦ (some a, r.1, record r.2 { bytes = zero_fill r.2.bytes a size })
    ])
pcalloc-Granted s p size (none, q, t) g = g
pcalloc-Granted s p size (some a, q, t) g = g

temp_buf-Fresh :
    (p : Pool) (size : ℕ) (rs : List Region) (r : Option Ptr × Pool × Libc)
    → IsPool p
    → Live (blocks p) rs
    → Granted true sizeof_buf p r
    → MayAnswer r.1 (first_answer r.2.answers)
    → size ≤ p.max
    → Fresh size rs (temp_buf size r)
temp_buf-Fresh p size rs (none, q, t) v live g may small = rw g (v, live)
temp_buf-Fresh p size rs (some at, q, t) v live (v', _, same, kept) may small =
    let (g, _) = palloc-Granted size t q v' may (omega arith) in
    filled-Fresh q at size rs (palloc t q size) v' (kept rs live) g

-- In a sound pool, for a size below the pool's limit for small requests, where the allocator answers
-- both requests with unused memory or not at all: `create_temp_buf` gives an empty buffer in memory
-- alone, of the size asked for, which with its header lies in the pool and overlaps no region handed
-- out before, or NULL, and those regions stay.
pub create_temp_buf-Fresh :
    (s : Libc) (p : Pool) (size : ℕ) (rs : List Region)
    → IsPool p
    → Live (blocks p) rs
    → MayAnswer p (first_answer s.answers)
    → MayAnswer (pcalloc s p sizeof_buf).1 (first_answer (pcalloc s p sizeof_buf).2.answers)
    → sizeof_buf ≤ p.max
    → size ≤ p.max
    → Fresh size rs (create_temp_buf s p size)
unfolding create_temp_buf pcalloc
create_temp_buf-Fresh s p size rs v live may may' header small =
    temp_buf-Fresh p size rs (pcalloc s p sizeof_buf) v live
      (pcalloc-Granted s p sizeof_buf (palloc s p sizeof_buf)
        (palloc-Granted sizeof_buf s p v may header).0)
      may' small
