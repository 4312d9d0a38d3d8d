-- ===== src/Array.antt =====
-- array.h and array.c: arrays that grow, with their elements in a pool.
use libcn.Prelude.{
  ℕ, ◌+◌, ◌*◌, Ptr, null, Bool, true, false, Option, none, some, ltb, leb, ◌==◌, ◌&&◌,
  if◌then◌else◌, u32, u64, mul64, sub64,
}
pub mod Memory
mod Push
mod Room
mod Life
mod Tests
use libcn.Alloc.{Libc, copy}
use libcn.Pool.{Pool, palloc}

-- `sizeof(array_t)` under the System V ABI of x86-64.
abbrev pub sizeof_array : ℕ
sizeof_array = 40

-- `array_t` and its address; `pool` is the pool that the operations are given.
pub record Array : Type 0 where
  pub at : Ptr
  pub elts : Ptr
  pub nelts : ℕ
  pub size : ℕ
  pub nalloc : ℕ

-- The rest of `array_init` after its request; `true` for the return of 0, `false` for -1.
unfoldable pub init_at : Ptr → ℕ → ℕ → Option Ptr × Pool × Libc → Bool × Array × Pool × Libc
init_at at n size (none, p, s) =
    (false, record { at = at; elts = null; nelts = 0; size = size; nalloc = n }, p, s)
init_at at n size (some e, p, s) =
    (true, record { at = at; elts = e; nelts = 0; size = size; nalloc = n }, p, s)

unfoldable pub array_init : Libc → Pool → Ptr → ℕ → ℕ → Bool × Array × Pool × Libc
unfolding init_at
array_init s p at n size = init_at at n size (palloc s p (mul64 n size))

abbrev pub if_ok : Bool × Array × Pool × Libc → Option Array × Pool × Libc
if_ok (ok, a, p, s) = (if ok then some a else none, p, s)

-- The rest of `array_create` after its request.
unfoldable pub create_at : ℕ → ℕ → Option Ptr × Pool × Libc → Option Array × Pool × Libc
unfolding array_init
create_at n size (none, p, s) = (none, p, s)
create_at n size (some at, p, s) = if_ok (array_init s p at n size)

unfoldable pub array_create : Libc → Pool → ℕ → ℕ → Option Array × Pool × Libc
unfolding create_at
array_create s p n size = create_at n size (palloc s p sizeof_array)

-- The end of `size` bytes from `start` on is the end of what the first block of the pool has handed out.
abbrev pub at_last : Pool → Ptr → ℕ → Bool
at_last p start size = u64 (start + size) == p.first.last

abbrev pub set_last : Pool → Ptr → Pool
set_last p last = record p { first = record p.first { last = last } }

unfoldable pub array_destroy : Pool → Array → Pool
array_destroy p a =
    let size = mul64 a.size a.nalloc in
    let p1 = if at_last p a.elts size then set_last p (sub64 p.first.last size) else p in
    if at_last p1 a.at sizeof_array then set_last p1 a.at else p1

-- The new element's address, `none` for `NULL`, and the array with `n` more elements.
abbrev pub take : Array → ℕ → Pool → Libc → Option Ptr × Array × Pool × Libc
take a n p s =
    (some (u64 (a.elts + mul64 a.size a.nelts)), record a { nelts = u32 (a.nelts + n) }, p, s)

-- The elements move to the memory `new` for `nalloc` of them, of which `size` bytes are copied.
unfoldable pub relocate :
    Option Ptr → Array → ℕ → ℕ → ℕ → Pool → Libc → Option Ptr × Array × Pool × Libc
relocate none a nalloc size n p s = (none, a, p, s)
relocate (some e) a nalloc size n p s =
    take (record a { elts = e; nalloc = nalloc }) n p
      (record s { bytes = copy s.bytes e a.elts size })

unfoldable pub array_push : Libc → Pool → Array → Option Ptr × Array × Pool × Libc
array_push s p a =
    let size = mul64 a.size a.nalloc in
    let (new, p', s') = palloc s p (mul64 2 size) in
    if a.nelts == a.nalloc
    then (if at_last p a.elts size && leb (u64 (p.first.last + a.size)) p.first.end
        then take (record a { nalloc = u32 (a.nalloc + 1) }) 1
            (set_last p (u64 (p.first.last + a.size))) s
        else relocate new a (u32 (a.nalloc * 2)) size 1 p' s')
    else take a 1 p s

unfoldable pub array_push_n : Libc → Pool → Array → ℕ → Option Ptr × Array × Pool × Libc
array_push_n s p a n =
    let size = mul64 n a.size in
    let nalloc = u32 (2 * (if leb a.nalloc n then n else a.nalloc)) in
    let (new, p', s') = palloc s p (mul64 nalloc a.size) in
    if ltb a.nalloc (u32 (a.nelts + n))
    then (if at_last p a.elts (mul64 a.size a.nalloc) && leb (u64 (p.first.last + size)) p.first.end
        then take (record a { nalloc = u32 (a.nalloc + n) }) n
            (set_last p (u64 (p.first.last + size))) s
        else relocate new a nalloc (mul64 a.nelts a.size) n p' s')
    else take a n p s
