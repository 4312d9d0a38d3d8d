-- ===== src/Master.antt =====
-- `event_master_init` of event.c, which lays out the shared memory, and `shm_alloc` of shmtx.c.
use libcn.Prelude.{
  ℕ, ◌+◌, ◌*◌, Ptr, null, Bool, true, false, Option, none, some, List, [], ◌∷◌, not, ◌==◌,
  if◌then◌else◌, write, u64,
}
mod Layout
mod Tests
use libcn.Mutex.{Shmtx, no_spin, shmtx_create, atomic_cmp_set}

-- The static variables of event.c that are set here, and the words at all addresses.
pub record Statics : Type 0 where
  pub timer_resolution : ℕ
  pub accept_mutex_ptr : Ptr
  pub accept_mutex : Shmtx
  pub connection_counter : Ptr
  pub stat_accepted : Ptr
  pub stat_handled : Ptr
  pub stat_requests : Ptr
  pub stat_active : Ptr
  pub stat_reading : Ptr
  pub stat_writing : Ptr
  pub stat_waiting : Ptr
  pub words : Ptr → ℕ

-- `MAP_FAILED`, which is `(void *)-1`.
abbrev pub map_failed : Ptr
map_failed = 0xffff_ffff_ffff_ffff

-- `at` is the address of the variable for the result, which is what the test reads; `mapped` is the
-- answer of `mmap`. The Boolean is whether the return is 0.
unfoldable pub shm_alloc : Ptr → Option Ptr → Bool × Ptr
shm_alloc at mapped = (not (at == map_failed), elim mapped [ none ↦ map_failed | some p ↦ p ])

-- `TIMER_INTERVAL`, then `cl` and `size`.
abbrev pub timer_interval : ℕ
timer_interval = 1000

abbrev pub cache_line : ℕ
cache_line = 128

abbrev pub shared_size : ℕ
shared_size = 8 * cache_line

-- `shared + i * cl`.
abbrev pub line : Ptr → ℕ → Ptr
line shared i = u64 (shared + i * cache_line)

-- The part of `event_master_init` after `shm_alloc`; `shmtx_create` always returns 0.
unfoldable pub lay_out : Ptr → Statics → Statics
unfolding shmtx_create atomic_cmp_set
lay_out shared s =
    let counter = line shared 1 in
    record s {
      accept_mutex_ptr = shared;
      accept_mutex = shmtx_create (record s.accept_mutex { spin = no_spin }) shared;
      connection_counter = counter;
      words = write s.words counter (atomic_cmp_set (s.words counter) 0 1).1;
      stat_accepted = line shared 2;
      stat_handled = line shared 3;
      stat_requests = line shared 4;
      stat_active = line shared 5;
      stat_reading = line shared 6;
      stat_writing = line shared 7;
      stat_waiting = line shared 8;
    }

-- `limit` is whether `getrlimit` succeeds; the Boolean is whether the return is 0.
unfoldable pub event_master_init : Bool → Ptr → Option Ptr → Statics → Bool × Statics
unfolding shm_alloc lay_out
event_master_init limit at mapped s =
    let s1 = record s { timer_resolution = timer_interval } in
    let (ok, shm) = shm_alloc at mapped in
    if not limit
    then (false, s1)
    else if not (s.accept_mutex_ptr == null)
    then (true, s1)
    else if not ok
    then (false, s1)
    else (true, lay_out shm s1)
