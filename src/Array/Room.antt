-- ===== src/Array/Room.antt =====
-- `array_push` and `array_push_n` on every branch.
use native.Mathlib.Nat.{mul_comm, mul-le-mul_left}
use libcn.Prelude.{
  ℕ, ◌+◌, ◌*◌, ◌^◌, ◌≤◌, ◌<◌, ◌≡◌, refl, inl, inr, Bool, true, false, List, arith, leb, ltb, ◌==◌,
  ◌&&◌, if◌then◌else◌, Bool-cases, u32, u64, mul64,
}
use libcn.Alloc.{Libc}
use libcn.Pool.{Pool, blocks, palloc}
use libcn.Pool.Blocks.{Region}
use libcn.Pool.Serve.{IsPool, MayAnswer, first_answer}
use package.libcn.Array.{Array, take, at_last, array_push, array_push_n}
use package.libcn.Array.Memory.{Solid, InSome-word, palloc-Granted}
use package.libcn.Array.Push.{memory, Holds, Outcome, take-Outcome, moved, extended}

product_lem :
    (p : Pool) (a : Array) (rs : List Region)
    → Holds p a rs
    → mul64 a.size a.nalloc ≡ a.size * a.nalloc
product_lem p a rs h =
    let word = InSome-word (memory a) (blocks p) h.sound.sound h.live.0 in omega arith

-- The test of growth in place by `k` bytes.
abbrev grows : Pool → Array → ℕ → Bool
grows p a k = at_last p a.elts (a.size * a.nalloc) && leb (u64 (p.first.last + k)) p.first.end

-- Where the test holds, the memory ends where the block has been used up to, and there is room.
grows_lem :
    (p : Pool) (a : Array) (rs : List Region) (k : ℕ)
    → Holds p a rs
    → p.first.end ≤ 2 ^ 63
    → k ≤ p.max
    → grows p a k ≡ true
    → (a.elts + a.size * a.nalloc ≡ p.first.last)
      × (p.first.last + k ≤ p.first.end)
      × (u64 (p.first.last + k) ≡ p.first.last + k)
grows_lem p a rs k h user small e =
    let word = InSome-word (memory a) (blocks p) h.sound.sound h.live.0 in
    let room = h.sound.room in
    let high = h.sound.sound.0.high in
    let sum : u64 (p.first.last + k) ≡ p.first.last + k = omega arith in
    let start : u64 (a.elts + a.size * a.nalloc) ≡ a.elts + a.size * a.nalloc = omega arith in
    let e' : (a.elts + a.size * a.nalloc == p.first.last && leb (p.first.last + k) p.first.end)
        ≡ true =
      rw (sum, start) at e in
    (ground arith, ground arith, sum)

max_lem : (p : Pool) → IsPool p → p.max < 2 ^ 64
max_lem p v = let room = v.room in let word = v.sound.0.word in omega arith

product_word : (n size c : ℕ) → size * n ≤ c → c < 2 ^ 64 → mul64 n size ≡ size * n
product_word n size c le lt = rw (mul_comm n size) (omega arith)

free_place : (n m m' : ℕ) → m' ≡ m → ltb n m' ≡ false → m ≤ n
free_place n m m' e lt = ground arith

-- There is a free place.
in_place :
    (n : ℕ) (s : Libc) (p : Pool) (a : Array) (rs : List Region)
    → Holds p a rs
    → a.nelts + n ≤ a.nalloc
    → Outcome n s p a rs (take a n p s)
in_place n s p a rs h room =
    take-Outcome n s s p p a a rs h refl refl room (λ i l. refl) (λ q o. refl)

-- For an array of at least one place in a sound pool at user addresses, none of whose other regions is empty, where the
-- allocator answers with unused memory or not at all and the doubled array is below the pool's limit
-- for small requests: `array_push` returns NULL and leaves all as it was, or the address of the new last
-- element, which lies in the array's memory; that memory is in the pool and overlaps no other region,
-- the old elements' bytes are the same, and so are all bytes outside the array.
pub array_push-Outcome :
    (s : Libc) (p : Pool) (a : Array) (rs : List Region)
    → Holds p a rs
    → Solid rs
    → MayAnswer p (first_answer s.answers)
    → p.first.end ≤ 2 ^ 63
    → 0 < a.nalloc
    → a.nalloc * 2 < 2 ^ 32
    → a.size * (a.nalloc * 2) ≤ p.max
    → Outcome 1 s p a rs (array_push s p a)
unfolding array_push
array_push-Outcome s p a rs h solid may user some_room word small =
    let fits = h.fits in
    let full = h.sound.room in
    let product = product_lem p a rs h in
    let more : a.size * 1 ≤ a.size * (a.nalloc * 2) = mul-le-mul_left a.size (omega arith) in
    let doubled : a.size * (a.nalloc * 2) ≡ a.size * a.nalloc * 2 = grind arith in
    let twice : mul64 2 (a.size * a.nalloc) ≡ a.size * (a.nalloc * 2) = omega arith in
    let below : a.size * a.nelts ≤ a.size * a.nalloc = mul-le-mul_left a.size fits in
    let next : u32 (a.nalloc + 1) ≡ a.nalloc + 1 = omega arith in
    let next2 : u32 (a.nalloc * 2) ≡ a.nalloc * 2 = omega arith in
    let (granted, same) = palloc-Granted (a.size * (a.nalloc * 2)) s p h.sound may small in
    elim (Bool-cases (a.nelts == a.nalloc)) [
      | inr e ↦ rw e (in_place 1 s p a rs h (ground arith))
      | inl e ↦ elim (Bool-cases (grows p a a.size)) [
        | inl g ↦
            let (end, room, sum) = grows_lem p a rs a.size h user (omega arith) g in
            rw (e, product, g, sum, next)
              (extended 1 a.size s p a rs h solid (omega arith) (omega arith) end room)
        | inr g ↦
            rw (e, product, g, twice, next2)
              (moved 1 (a.nalloc * 2) (a.size * a.nalloc) s p a rs
                (palloc s p (a.size * (a.nalloc * 2))) h word (omega arith) below (omega arith)
                granted same)
      ]
    ]

-- The same for `array_push_n`, where twice the memory for the old places and `n` more is below the
-- pool's limit for small requests: it returns NULL and leaves all as it was, or the address of the first of `n` new elements.
pub array_push_n-Outcome :
    (s : Libc) (p : Pool) (a : Array) (rs : List Region) (n : ℕ)
    → Holds p a rs
    → Solid rs
    → MayAnswer p (first_answer s.answers)
    → p.first.end ≤ 2 ^ 63
    → 2 * (a.nalloc + n) < 2 ^ 32
    → a.size * (2 * (a.nalloc + n)) ≤ p.max
    → Outcome n s p a rs (array_push_n s p a n)
unfolding array_push_n
array_push_n-Outcome s p a rs n h solid may user word small =
    let fits = h.fits in
    let full = h.sound.room in
    let product = product_lem p a rs h in
    let m = 2 * (if leb a.nalloc n then n else a.nalloc) in
    let high : m ≤ 2 * (a.nalloc + n) = ground arith in
    let low : a.nelts + n ≤ m = ground arith in
    let step_le : a.size * n ≤ a.size * (2 * (a.nalloc + n)) =
      mul-le-mul_left a.size (omega arith) in
    let new_le : a.size * m ≤ a.size * (2 * (a.nalloc + n)) = mul-le-mul_left a.size high in
    let old_le : a.size * a.nelts ≤ a.size * m = mul-le-mul_left a.size (omega arith) in
    let max_word : p.max < 2 ^ 64 = max_lem p h.sound in
    let step : mul64 n a.size ≡ a.size * n =
      product_word n a.size (a.size * (2 * (a.nalloc + n))) step_le (omega arith) in
    let new : mul64 m a.size ≡ a.size * m =
      product_word m a.size (a.size * (2 * (a.nalloc + n))) new_le (omega arith) in
    let old : mul64 a.nelts a.size ≡ a.size * a.nelts =
      product_word a.nelts a.size (a.size * m) old_le (omega arith) in
    let total : u32 (a.nelts + n) ≡ a.nelts + n = omega arith in
    let next : u32 (a.nalloc + n) ≡ a.nalloc + n = omega arith in
    let nalloc : u32 m ≡ m = omega arith in
    let (granted, same) = palloc-Granted (a.size * m) s p h.sound may (omega arith) in
    elim (Bool-cases (ltb a.nalloc (u32 (a.nelts + n)))) [
      | inr e ↦
          rw e
            (in_place n s p a rs h (free_place a.nalloc (a.nelts + n) (u32 (a.nelts + n)) total e))
      | inl e ↦ elim (Bool-cases (grows p a (a.size * n))) [
        | inl g ↦
            let (end, room, sum) = grows_lem p a rs (a.size * n) h user (omega arith) g in
            rw (e, product, step, g, sum, next)
              (extended n (a.size * n) s p a rs h solid refl (omega arith) end room)
        | inr g ↦
            rw (e, product, step, g, nalloc, new, old)
              (moved n m (a.size * a.nelts) s p a rs (palloc s p (a.size * m)) h (omega arith) low
                (omega arith) old_le granted same)
      ]
    ]
