-- ===== src/Alloc.antt =====
-- alloc.c: the wrappers of the C library's allocator. What `malloc` and `posix_memalign` will answer
-- is a list, `none` for a failure, and its end stands for failures; what is freed is recorded.
use libcn.Prelude.{
  ℕ, ◌+◌, ◌-◌, Ptr, Option, none, some, List, [], ◌∷◌, null, ◌==◌, leb, ltb, ◌&&◌, if◌then◌else◌,
}

pub record Libc : Type 0 where
  pub answers : List (Option Ptr)
  pub freed : List Ptr
  pub bytes : Ptr → ℕ

-- The next answer of the allocator.
abbrev pub answer : Libc → Option Ptr × Libc
answer s = elim s.answers [ [] ↦ (none, s) | a ∷ later ↦ (a, record s { answers = later }) ]

-- `free`, which does nothing at `NULL`.
abbrev pub free : Libc → Ptr → Libc
free s p = if p == null then s else record s { freed = p ∷ s.freed }

-- `memset(p, 0, size)` and `memcpy(to, from, size)`.
abbrev pub zero_fill : (Ptr → ℕ) → Ptr → ℕ → Ptr → ℕ
zero_fill bytes p size a = if leb p a && ltb a (p + size) then 0 else bytes a

abbrev pub copy : (Ptr → ℕ) → Ptr → Ptr → ℕ → Ptr → ℕ
copy bytes to from size a =
    if leb to a && ltb a (to + size) then bytes (from + (a - to)) else bytes a

unfoldable pub alloc : Libc → ℕ → Option Ptr × Libc
alloc s size = answer s

unfoldable pub zalloc : Libc → ℕ → Option Ptr × Libc
unfolding alloc
zalloc s size =
    let (p, s') = alloc s size in
    elim p [
      | none ↦ (none, s')
      | some a ↦ (some a, record s' { bytes = zero_fill s'.bytes a size })
    ]

unfoldable pub memalign : Libc → ℕ → ℕ → Option Ptr × Libc
memalign s alignment size = answer s
