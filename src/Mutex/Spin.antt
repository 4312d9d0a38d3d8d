-- ===== src/Mutex/Spin.antt =====
-- The inner loop of `shmtx_lock`.
use native.Mathlib.Nat.{pow-suc, mul_comm, mul_assoc}
use libcn.Prelude.{
  ℕ, zero, suc, ◌+◌, ◌*◌, ◌%◌, ◌^◌, ◌≤◌, ◌<◌, ◌≡◌, refl, Bool, true, false, List, [], ◌∷◌, ◌++◌,
  arith, ltb, ltb→lt, if◌then◌else◌, Bool-cases, inl, inr,
}
use package.libcn.Mutex.{Op, attempt, yield, pause, spin_loop, lock_round}

-- The pauses of a list of operations.
abbrev pub pauses : List Op → ℕ
pauses [] = 0
pauses (pause n ∷ ops) = n + pauses ops
pauses (_ ∷ ops) = pauses ops

-- Where the doubling reaches `spin` within the fuel, the loop ends by its test.
abbrev Ended : ℕ → ℕ → List Op × Bool → Type 0
Ended spin n (ops, ended) = (ended ≡ true) × (pauses ops + n ≤ 2 * spin)

spin_loop-Ended :
    (fuel spin n : ℕ)
    → spin ≤ 2 ^ 31
    → n ≤ 2 * spin
    → spin ≤ n * 2 ^ fuel
    → Ended spin n (spin_loop (suc fuel) (2 ^ 32) spin n)
unfolding spin_loop
spin_loop-Ended zero spin n small le enough =
    let done : ltb n spin ≡ false = ground arith in rw done (refl, omega arith)
spin_loop-Ended (suc fuel) spin n small le enough = elim (Bool-cases (ltb n spin)) [
  | inl more ↦
      let lt = ltb→lt n spin more in
      let same : n * 2 % 2 ^ 32 ≡ n * 2 = omega arith in
      let enough' : spin ≤ n * 2 * 2 ^ fuel =
        rw (pow-suc, mul_comm (2 ^ fuel) 2, ← mul_assoc) at enough in
      let (e, bound) = spin_loop-Ended fuel spin (n * 2) small (omega arith) enough' in
      rw (more, same) (e, omega (arith, bound))
  | inr done ↦ rw done (refl, omega arith)
]

pauses-append : (xs ys : List Op) → pauses (xs ++ ys) ≡ pauses xs + pauses ys
pauses-append [] ys = omega arith
pauses-append (attempt ∷ xs) ys = pauses-append xs ys
pauses-append (yield ∷ xs) ys = pauses-append xs ys
pauses-append (pause n ∷ xs) ys = omega (arith, pauses-append xs ys)

-- A round of `shmtx_lock`, with its 32-bit counter and `spin` from 1 up to 2^31 (`shmtx_create`
-- sets 2048), ends in 33 tests of the inner loop, and pauses at most twice `spin` times.
pub lock_round_ends :
    (spin ncpu : ℕ)
    → 0 < spin
    → spin ≤ 2 ^ 31
    → ((lock_round 33 (2 ^ 32) spin ncpu).1 ≡ true)
      × (pauses (lock_round 33 (2 ^ 32) spin ncpu).0 ≤ 2 * spin)
unfolding lock_round
lock_round_ends spin ncpu pos small =
    round (spin_loop 33 (2 ^ 32) spin 1)
      (spin_loop-Ended 32 spin 1 small (omega arith) (omega arith))
  where
    round :
        (r : List Op × Bool)
        → Ended spin 1 r
        → let out : List Op × Bool =
            if ltb 1 ncpu
            then (attempt ∷ r.0 ++ (if r.1 then yield ∷ [] else []), r.1)
            else (attempt ∷ yield ∷ [], true) in
          (out.1 ≡ true) × (pauses out.0 ≤ 2 * spin)
    round (ops, ended) (e, bound) = elim (Bool-cases (ltb 1 ncpu)) [
      | inl many ↦ rw (many, e) (refl, omega (arith, pauses-append ops (yield ∷ []), bound))
      | inr one ↦ rw one (refl, omega arith)
    ]

-- With `spin` of 2^32 or more, such as the `(uint64_t)-1` that `event_master_init` sets, the 32-bit
-- counter never reaches it: while the lock is taken, no number of tests ends the inner loop of
-- `shmtx_lock`, so the process never yields the processor.
pub spin_loop_endless :
    (fuel spin n : ℕ) → 2 ^ 32 ≤ spin → n < 2 ^ 32 → (spin_loop fuel (2 ^ 32) spin n).1 ≡ false
unfolding spin_loop
spin_loop_endless zero spin n big lt = refl
spin_loop_endless (suc fuel) spin n big lt =
    let more : ltb n spin ≡ true = ground arith in
    rw more (spin_loop_endless fuel spin (n * 2 % 2 ^ 32) big (omega arith))
