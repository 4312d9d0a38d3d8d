-- ===== src/Mutex/Tests.antt =====
-- Processes with the ids 1, 2, 3, …, of which the first has taken the lock.
use libcn.Prelude.{ℕ, suc, ◌^◌, ◌≡◌, ◌≢◌, ◌⊎◌, refl, true, false, arith}
use package.libcn.Mutex.{
  atomic_cmp_set, shmtx_force_unlock, Pc, System, Step, lock_call, lock_free, lock_won, start,
  Reach, here, next, move, store, spin_loop,
}
use package.libcn.Mutex.Safety.{mutual_exclusion, no_deadlock, unlock_by}
use package.libcn.Mutex.Spin.{spin_loop_endless}

abbrev waits : System
waits = move start 1 Pc.waiting

abbrev held : System
held = store (move (move waits 0 Pc.waiting) 0 Pc.swapping) 0 1 Pc.inside

waits-Reach : Reach suc waits
waits-Reach = next here (lock_call 1 refl)

held-Reach : Reach suc held
unfolding atomic_cmp_set
held-Reach =
    next (next (next waits-Reach (lock_call 0 refl)) (lock_free 0 refl refl)) (lock_won 0 refl refl)

mutual_exclusion_example : ◌≡◌ {A = ℕ} 0 0
mutual_exclusion_example =
    mutual_exclusion suc (λ i e. ground arith) (λ i j e. ground arith) held-Reach 0 0 refl refl

no_deadlock_example :
    ((j : ℕ) × (waits.pc j ≡ Pc.inside))
    ⊎ ((t : System) × (u : System) × Step suc waits t × Step suc t u × (u.pc 1 ≡ Pc.inside))
no_deadlock_example =
    no_deadlock suc (λ i e. ground arith) (λ i j e. ground arith) waits-Reach 1 refl

unlock_by_example :
    (held.pc 1 ≢ Pc.inside → shmtx_force_unlock held.word 2 ≡ (false, held.word))
    × (held.pc 1 ≡ Pc.inside → shmtx_force_unlock held.word 2 ≡ (true, 0))
unlock_by_example = unlock_by suc (λ i e. ground arith) (λ i j e. ground arith) held-Reach 1

spin_loop_endless_example : (spin_loop 100 (2 ^ 32) 0xffff_ffff_ffff_ffff 1).1 ≡ false
spin_loop_endless_example =
    spin_loop_endless 100 0xffff_ffff_ffff_ffff 1 (omega arith) (omega arith)
