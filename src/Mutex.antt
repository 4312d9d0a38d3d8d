-- ===== src/Mutex.antt =====
-- shmtx.h, shmtx.c and atomic.h: a lock word in shared memory that holds the id of its
-- owner, or 0. A process reads it and then swaps it in one step; others may run in between.
mod Safety
mod Spin
mod Tests
use libcn.Prelude.{
  ℕ, zero, suc, ◌+◌, ◌*◌, ◌%◌, ◌<◌, ◌≡◌, ◌≢◌, Bool, true, false, List, [], ◌∷◌, ◌++◌, ltb, ◌==◌,
  if◌then◌else◌, write, u32,
}

-- `atomic_cmp_set(lock, old, set)`: whether it stored, and the word.
unfoldable pub atomic_cmp_set : ℕ → ℕ → ℕ → Bool × ℕ
atomic_cmp_set lock old set = if lock == old then (true, set) else (false, lock)

-- `shmtx_t`; `none` cannot happen, the lock is always set.
pub record Shmtx : Type 0 where
  pub lock : ℕ
  pub spin : ℕ

-- `(uint64_t)-1`: no spinning was asked for.
abbrev pub no_spin : ℕ
no_spin = 0xffff_ffff_ffff_ffff

-- `addr` is the address of the lock word.
unfoldable pub shmtx_create : Shmtx → ℕ → Shmtx
shmtx_create mtx addr =
    let m = record mtx { lock = addr } in
    if mtx.spin == no_spin then m else record m { spin = 2048 }

-- `shmtx_trylock`, with no other process between the read and the swap.
unfoldable pub shmtx_trylock : ℕ → ℕ → Bool × ℕ
unfolding atomic_cmp_set
shmtx_trylock lock pid = if lock == 0 then atomic_cmp_set lock 0 pid else (false, lock)

-- `shmtx_unlock` and `shmtx_force_unlock`: the word, and the result of the latter.
unfoldable pub shmtx_force_unlock : ℕ → ℕ → Bool × ℕ
unfolding atomic_cmp_set
shmtx_force_unlock lock pid = atomic_cmp_set lock pid 0

-- Where a process stands: outside, before the swap of `shmtx_trylock`, in the loop of `shmtx_lock`
-- before its read and before its swap, or past a lock that succeeded.
pub data Pc : Type 0 where
  outside trying waiting swapping inside : Pc

pub record System : Type 0 where
  pub word : ℕ
  pub pc : ℕ → Pc

abbrev pub move : System → ℕ → Pc → System
move s i p = record s { pc = write s.pc i p }

abbrev pub store : System → ℕ → ℕ → Pc → System
store s i w p = record { word = w; pc = write s.pc i p }

-- A step of process `i`, whose id is `pid i`. Pauses and yields leave the word and the place alone.
pub data Step (pid : ℕ → ℕ) (s : System) : System → Type 0 where
  try_busy : (i : ℕ) → s.pc i ≡ Pc.outside → s.word ≢ 0 → Step pid s s
  try_free : (i : ℕ) → s.pc i ≡ Pc.outside → s.word ≡ 0 → Step pid s (move s i Pc.trying)
  try_won :
      (i : ℕ)
      → s.pc i ≡ Pc.trying
      → (atomic_cmp_set s.word 0 (pid i)).0 ≡ true
      → Step pid s (store s i (atomic_cmp_set s.word 0 (pid i)).1 Pc.inside)
  try_lost :
      (i : ℕ)
      → s.pc i ≡ Pc.trying
      → (atomic_cmp_set s.word 0 (pid i)).0 ≡ false
      → Step pid s (store s i (atomic_cmp_set s.word 0 (pid i)).1 Pc.outside)
  lock_call : (i : ℕ) → s.pc i ≡ Pc.outside → Step pid s (move s i Pc.waiting)
  lock_busy : (i : ℕ) → s.pc i ≡ Pc.waiting → s.word ≢ 0 → Step pid s s
  lock_free : (i : ℕ) → s.pc i ≡ Pc.waiting → s.word ≡ 0 → Step pid s (move s i Pc.swapping)
  lock_won :
      (i : ℕ)
      → s.pc i ≡ Pc.swapping
      → (atomic_cmp_set s.word 0 (pid i)).0 ≡ true
      → Step pid s (store s i (atomic_cmp_set s.word 0 (pid i)).1 Pc.inside)
  lock_lost :
      (i : ℕ)
      → s.pc i ≡ Pc.swapping
      → (atomic_cmp_set s.word 0 (pid i)).0 ≡ false
      → Step pid s (store s i (atomic_cmp_set s.word 0 (pid i)).1 Pc.waiting)
  unlock :
      (i : ℕ)
      → s.pc i ≡ Pc.inside
      → Step pid s (store s i (shmtx_force_unlock s.word (pid i)).1 Pc.outside)
  unlock_outside :
      (i : ℕ)
      → s.pc i ≡ Pc.outside
      → Step pid s (store s i (shmtx_force_unlock s.word (pid i)).1 Pc.outside)

abbrev pub start : System
start = record { word = 0; pc = λ _. Pc.outside }

pub data Reach (pid : ℕ → ℕ) : System → Type 0 where
  here : Reach pid start
  next : {s t : System} → Reach pid s → Step pid s t → Reach pid t

-- What one round of the `for (;;)` of `shmtx_lock` does while the lock is taken.
pub data Op : Type 0 where
  attempt yield : Op
  pause : ℕ → Op

-- The inner `for (n = 1; n < spin; n <<= 1)`, with `bits` the width of `n`: `none` for a loop that
-- fuel does not end.
unfoldable pub spin_loop : ℕ → ℕ → (spin n : ℕ) → List Op × Bool
spin_loop zero modulus spin n = ([], false)
spin_loop (suc fuel) modulus spin n =
    let (ops, ended) = spin_loop fuel modulus spin (n * 2 % modulus) in
    if ltb n spin then (pause n ∷ attempt ∷ ops, ended) else ([], true)

unfoldable pub lock_round : ℕ → (modulus spin ncpu : ℕ) → List Op × Bool
unfolding spin_loop
lock_round fuel modulus spin ncpu =
    let (ops, ended) = spin_loop fuel modulus spin 1 in
    if ltb 1 ncpu
    then (attempt ∷ ops ++ (if ended then yield ∷ [] else []), ended)
    else (attempt ∷ yield ∷ [], true)
