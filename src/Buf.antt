-- ===== src/Buf.antt =====
-- buf.h and buf.c: buffers, with their memory in a pool.
use libcn.Prelude.{
  ℕ, ◌+◌, Ptr, null, Bool, true, false, Option, none, some, ◌&&◌, ◌||◌, not, if◌then◌else◌, u64,
  sub64,
}
mod Fresh
mod Tests
use libcn.Alloc.{Libc}
use libcn.Pool.{Pool, palloc, pcalloc}

-- `sizeof(buf_t)` under the System V ABI of x86-64.
abbrev pub sizeof_buf : ℕ
sizeof_buf = 72

-- `buf_t` and its address, but for the flags that no code of the repository reads or writes.
pub record Buf : Type 0 where
  pub at : Ptr
  pub pos : Ptr
  pub last : Ptr
  pub file_pos : ℕ
  pub file_last : ℕ
  pub start : Ptr
  pub end : Ptr
  pub temporary : Bool
  pub memory : Bool
  pub mmap : Bool
  pub in_file : Bool
  pub flush : Bool
  pub sync : Bool
  pub last_buf : Bool

-- All bytes zero.
abbrev pub zero_buf : Ptr → Buf
zero_buf at = record {
  at = at;
  pos = null;
  last = null;
  file_pos = 0;
  file_last = 0;
  start = null;
  end = null;
  temporary = false;
  memory = false;
  mmap = false;
  in_file = false;
  flush = false;
  sync = false;
  last_buf = false;
}

unfoldable pub buf_in_memory : Buf → Bool
buf_in_memory b = b.temporary || (b.memory || b.mmap)

unfoldable pub buf_in_memory_only : Buf → Bool
unfolding buf_in_memory
buf_in_memory_only b = buf_in_memory b && not b.in_file

unfoldable pub buf_special : Buf → Bool
unfolding buf_in_memory
buf_special b = (b.flush || (b.last_buf || b.sync)) && (not (buf_in_memory b) && not b.in_file)

unfoldable pub buf_sync_only : Buf → Bool
unfolding buf_in_memory
buf_sync_only b =
    b.sync && (not (buf_in_memory b) && (not b.in_file && (not b.flush && not b.last_buf)))

unfoldable pub buf_size : Buf → ℕ
unfolding buf_in_memory
buf_size b = if buf_in_memory b then sub64 b.last b.pos else sub64 b.file_last b.file_pos

-- The rest of `create_temp_buf` after the request for the memory.
abbrev pub filled : Buf → ℕ → Option Ptr × Pool × Libc → Option Buf × Pool × Libc
filled b size (none, p, s) = (none, p, s)
filled b size (some a, p, s) =
    (some (record b { start = a; pos = a; last = a; end = u64 (a + size); temporary = true }), p, s)

-- The same after the request for the `buf_t`.
abbrev pub temp_buf : ℕ → Option Ptr × Pool × Libc → Option Buf × Pool × Libc
temp_buf size (none, p, s) = (none, p, s)
temp_buf size (some at, p, s) = filled (zero_buf at) size (palloc s p size)

unfoldable pub create_temp_buf : Libc → Pool → ℕ → Option Buf × Pool × Libc
create_temp_buf s p size = temp_buf size (pcalloc s p sizeof_buf)
