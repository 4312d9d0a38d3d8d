-- ===== src/Array/Push.antt =====
-- Where `array_push` and `array_push_n` put new elements, and what they keep.
use native.Mathlib.Nat.{mul-add, mul-le-mul_left}
use mathlib.Core.Path.{subst}
use libcn.Prelude.{
  ℕ, ◌+◌, ◌-◌, ◌*◌, ◌^◌, ◌≤◌, ◌<◌, ◌≡◌, refl, Ptr, true, false, Option, none, some, List, ◌∷◌,
  arith, leb, ltb, ◌&&◌, ◌∙◌, ap, sym, u32, u64, mul64,
}
use libcn.Alloc.{Libc, copy}
use libcn.Pool.{Pool, blocks}
use libcn.Pool.Blocks.{Region, region}
use libcn.Pool.Serve.{IsPool, Live, Granted}
use package.libcn.Array.{Array, take, set_last, relocate}
use package.libcn.Array.Memory.{Solid, IsPool-extend, Live-extend, InSome-word}

abbrev pub memory : Array → Region
memory a = region a.elts (a.size * a.nalloc)

-- The elements fit into the memory of the array, which is in the pool and overlaps none of `rs`.
pub record Holds (p : Pool) (a : Array) (rs : List Region) : Type 0 where
  pub sound : IsPool p
  pub fits : a.nelts ≤ a.nalloc
  pub word : a.nalloc < 2 ^ 32
  pub live : Live (blocks p) (memory a ∷ rs)

-- The array `a'` has `n` more elements than `a`, the first of them at `e`; the bytes of the old
-- elements are the same, and so are all bytes outside the array.
pub record Pushed (n : ℕ) (s s' : Libc) (p' : Pool) (a a' : Array) (rs : List Region) (e : Ptr)
    : Type 0 where
  pub holds : Holds p' a' rs
  pub size : a'.size ≡ a.size
  pub count : a'.nelts ≡ a.nelts + n
  pub element : e ≡ a'.elts + a.size * a.nelts
  pub kept : (i : ℕ) → i < a.size * a.nelts → s'.bytes (a'.elts + i) ≡ s.bytes (a.elts + i)
  pub others :
      (q : Ptr)
      → (leb a'.elts q && ltb q (a'.elts + a.size * a'.nalloc)) ≡ false
      → s'.bytes q ≡ s.bytes q

-- `NULL` leaves the array, the pool and the bytes as they are.
abbrev pub Outcome :
    ℕ → Libc → Pool → Array → List Region → Option Ptr × Array × Pool × Libc → Type 0
Outcome n s p a rs (none, a', p', s') = (a' ≡ a) × (p' ≡ p) × (s'.bytes ≡ s.bytes)
Outcome n s p a rs (some e, a', p', s') = Pushed n s s' p' a a' rs e

mul64_lem : (a b c : ℕ) → a * b ≤ c → c < 2 ^ 64 → mul64 a b ≡ a * b
mul64_lem a b c le lt = omega arith

pub take-Outcome :
    (n : ℕ) (s s' : Libc) (p p' : Pool) (a a' : Array) (rs : List Region)
    → Holds p' a' rs
    → a'.size ≡ a.size
    → a'.nelts ≡ a.nelts
    → a.nelts + n ≤ a'.nalloc
    → ((i : ℕ) → i < a.size * a.nelts → s'.bytes (a'.elts + i) ≡ s.bytes (a.elts + i))
    → ((q : Ptr)
        → (leb a'.elts q && ltb q (a'.elts + a.size * a'.nalloc)) ≡ false
        → s'.bytes q ≡ s.bytes q)
    → Outcome n s p a rs (take a' n p' s')
take-Outcome n s s' p p' a a' rs h size count room kept others =
    let word = InSome-word (memory a') (blocks p') h.sound.sound h.live.0 in
    let word32 = h.word in
    let below : a'.size * a'.nelts ≤ a'.size * a'.nalloc = mul-le-mul_left a'.size (omega arith) in
    let total : u32 (a'.nelts + n) ≡ a.nelts + n = omega arith in
    let product : mul64 a'.size a'.nelts ≡ a'.size * a'.nelts = omega arith in
    record {
      holds = record { sound = h.sound; fits = rw total room; word = h.word; live = h.live };
      size = size;
      count = total;
      element = at_end word below product;
      kept = kept;
      others = others;
    }
  where
    at_end :
        a'.elts + a'.size * a'.nalloc < 2 ^ 64
        → a'.size * a'.nelts ≤ a'.size * a'.nalloc
        → mul64 a'.size a'.nelts ≡ a'.size * a'.nelts
        → u64 (a'.elts + mul64 a'.size a'.nelts) ≡ a'.elts + a.size * a.nelts
    at_end w b e = rw (e, ← size, ← count) (omega arith)

copied :
    (bytes : Ptr → ℕ) (to from c i : ℕ) → i < c → copy bytes to from c (to + i) ≡ bytes (from + i)
copied bytes to from c i lt =
    let inside : (leb to (to + i) && ltb (to + i) (to + c)) ≡ true = ground arith in
    let same : to + i - to ≡ i = omega arith in rw (inside, same) refl

not_copied :
    (bytes : Ptr → ℕ) (to from c d q : ℕ)
    → c ≤ d
    → (leb to q && ltb q (to + d)) ≡ false
    → copy bytes to from c q ≡ bytes q
not_copied bytes to from c d q le out = ground arith

-- The elements move to new memory for `m` of them.
pub moved :
    (n m c : ℕ) (s : Libc) (p : Pool) (a : Array) (rs : List Region) (r : Option Ptr × Pool × Libc)
    → Holds p a rs
    → m < 2 ^ 32
    → a.nelts + n ≤ m
    → a.size * a.nelts ≤ c
    → c ≤ a.size * m
    → Granted true (a.size * m) p r
    → r.2.bytes ≡ s.bytes
    → Outcome n s p a rs (relocate r.0 a m c n r.1 r.2)
unfolding relocate
moved n m c s p a rs (none, q, t) h lt room low high g same = (refl, g, same)
moved n m c s p a rs (some e, q, t) h lt room low high (v, _, _, live) same =
    let a' = record a { elts = e; nalloc = m } in
    let (i, (_, d), (_, _, live')) = live (memory a ∷ rs) h.live in
    take-Outcome n s (record t { bytes = copy t.bytes e a.elts c }) p q a a' rs
      (record { sound = v; fits = omega arith; word = lt; live = (i, d, live') }) refl refl room
      (λ j lt'. copied t.bytes e a.elts c j (omega arith) ∙ ap (λ f. f (a.elts + j)) same)
      (λ j out. not_copied t.bytes e a.elts c (a.size * m) j high out ∙ ap (λ f. f j) same)

-- The memory grows in place by the `k` bytes of `n` elements.
pub extended :
    (n k : ℕ) (s : Libc) (p : Pool) (a : Array) (rs : List Region)
    → Holds p a rs
    → Solid rs
    → k ≡ a.size * n
    → a.nalloc + n < 2 ^ 32
    → a.elts + a.size * a.nalloc ≡ p.first.last
    → p.first.last + k ≤ p.first.end
    → Outcome n s p a rs
        (take (record a { nalloc = a.nalloc + n }) n (set_last p (p.first.last + k)) s)
extended n k s p a rs h solid bytes lt end room =
    let a' = record a { nalloc = a.nalloc + n } in
    let fits = h.fits in
    let longer : a.size * a.nalloc + k ≡ a.size * (a.nalloc + n) =
      ap (λ z. a.size * a.nalloc + z) bytes ∙ sym (mul-add a.size a.nalloc n) in
    let live = Live-extend p k h.sound room a.elts (a.size * a.nalloc) rs end solid h.live in
    take-Outcome n s s p (set_last p (p.first.last + k)) a a' rs
      (record {
        sound = IsPool-extend p k h.sound room;
        fits = omega arith;
        word = lt;
        live =
            subst (λ z. Live (blocks (set_last p (p.first.last + k))) (region a.elts z ∷ rs)) longer
              live;
      })
      refl refl (omega arith) (λ i l. refl) (λ q o. refl)
