-- ===== src/PartList.antt =====
-- list.h and list.c: lists of parts of equal length, with their elements in a pool.
use libcn.Prelude.{
  ℕ, ◌+◌, Ptr, Option, none, some, List, [], ◌∷◌, Bool, true, false, ◌==◌, if◌then◌else◌, u32, u64,
  mul64,
}
mod Push
mod Tests
use libcn.Alloc.{Libc}
use libcn.Pool.{Pool, palloc}

-- `sizeof(list_part_t)` and `sizeof(list_t)` under the System V ABI of x86-64.
abbrev pub sizeof_part : ℕ
sizeof_part = 24

abbrev pub sizeof_list : ℕ
sizeof_list = 56

-- `list_part_t`; the order of the parts is the `next` link.
pub record Part : Type 0 where
  pub at : Ptr
  pub elts : Ptr
  pub nelts : ℕ

-- `list_t` and its address: the part inside it, and the parts after it from `last` back.
pub record PartList : Type 0 where
  pub at : Ptr
  pub part : Part
  pub later : List Part
  pub size : ℕ
  pub nalloc : ℕ

abbrev pub last_of : Part → List Part → Part
last_of part [] = part
last_of part (b ∷ bs) = b

abbrev pub last : PartList → Part
last l = last_of l.part l.later

abbrev pub set_last : PartList → List Part → Part → PartList
set_last l [] b = record l { part = b }
set_last l (_ ∷ bs) b = record l { later = b ∷ bs }

-- The rest of `list_init` after its request, `none` for -1.
abbrev pub init_at : Ptr → ℕ → ℕ → Option Ptr × Pool × Libc → Option PartList × Pool × Libc
init_at at n size (none, p, s) = (none, p, s)
init_at at n size (some e, p, s) = (
  some (record {
    at = at;
    part = record { at = at + 8; elts = e; nelts = 0 };
    later = [];
    size = size;
    nalloc = n;
  }),
  p,
  s,
)

unfoldable pub list_init : Libc → Pool → Ptr → ℕ → ℕ → Option PartList × Pool × Libc
list_init s p at n size = init_at at n size (palloc s p (mul64 n size))

-- The rest of `list_create` after its request.
unfoldable pub create_at : ℕ → ℕ → Option Ptr × Pool × Libc → Option PartList × Pool × Libc
unfolding list_init
create_at n size (none, p, s) = (none, p, s)
create_at n size (some at, p, s) = list_init s p at n size

unfoldable pub list_create : Libc → Pool → ℕ → ℕ → Option PartList × Pool × Libc
unfolding create_at
list_create s p n size = create_at n size (palloc s p sizeof_list)

-- The address of the new element of the last part, and the list with it.
abbrev pub take : PartList → Pool → Libc → Option Ptr × PartList × Pool × Libc
take l p s =
    let b = last l in
    (
      some (u64 (b.elts + mul64 l.size b.nelts)),
      set_last l l.later (record b { nelts = u32 (b.nelts + 1) }),
      p,
      s,
    )

-- The new part at `at`, after the request for its elements.
unfoldable pub add_part :
    PartList → Ptr → Option Ptr × Pool × Libc → Option Ptr × PartList × Pool × Libc
add_part l at (none, p, s) = (none, l, p, s)
add_part l at (some e, p, s) =
    take (record l { later = record { at = at; elts = e; nelts = 0 } ∷ l.later }) p s

unfoldable pub new_part : PartList → Option Ptr × Pool × Libc → Option Ptr × PartList × Pool × Libc
unfolding add_part
new_part l (none, p, s) = (none, l, p, s)
new_part l (some at, p, s) = add_part l at (palloc s p (mul64 l.nalloc l.size))

unfoldable pub list_push : Libc → Pool → PartList → Option Ptr × PartList × Pool × Libc
unfolding new_part
list_push s p l =
    let grown = new_part l (palloc s p sizeof_part) in
    if (last l).nelts == l.nalloc then grown else take l p s
