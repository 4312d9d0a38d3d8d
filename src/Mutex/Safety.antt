-- ===== src/Mutex/Safety.antt =====
-- No two processes are past the lock.
use libcn.Prelude.{
  ℕ, ◌≡◌, ◌≢◌, ◌⊎◌, inl, inr, refl, true, false, arith, ◌==◌, Bool-cases, sym, ◌∙◌, ==→eq, eq→==,
}
use mathlib.Core.Bool.{false≢true}
use package.libcn.Mutex.{
  atomic_cmp_set, shmtx_force_unlock, Pc, System, Step, try_busy, try_free, try_won, try_lost,
  lock_call, lock_busy, lock_free, lock_won, lock_lost, unlock, unlock_outside, Reach, here, next,
  move,
}

abbrev Taken : (ℕ → ℕ) → ℕ → Type 0
Taken pid w = (w ≡ 0) ⊎ ((i : ℕ) × (w ≡ pid i))

Taken-lost :
    (pid : ℕ → ℕ) (w old new : ℕ)
    → (atomic_cmp_set w old new).0 ≡ false
    → Taken pid w
    → Taken pid (atomic_cmp_set w old new).1
unfolding atomic_cmp_set
Taken-lost pid w old new h t = elim (Bool-cases (w == old)) [
  | inl e ↦ absurd (false≢true (sym (rw e at h)))
  | inr e ↦ rw e t
]

Taken-clear : (pid : ℕ → ℕ) (w old : ℕ) → Taken pid w → Taken pid (atomic_cmp_set w old 0).1
unfolding atomic_cmp_set
Taken-clear pid w old t = elim (Bool-cases (w == old)) [ inl e ↦ rw e (inl refl) | inr e ↦ rw e t ]

-- The word is the id of the process that is inside, and 0 where none is.
pub record Owned (pid : ℕ → ℕ) (s : System) : Type 0 where
  pub owner : (i : ℕ) → s.pc i ≡ Pc.inside → s.word ≡ pid i
  pub owned : (i : ℕ) → s.word ≡ pid i → s.pc i ≡ Pc.inside
  pub taken : Taken pid s.word

module _ (pid : ℕ → ℕ) (nonzero : (i : ℕ) → pid i ≢ 0)
    (distinct : (i j : ℕ) → pid i ≡ pid j → i ≡ j) where
  Step-Owned : {s t : System} → Step pid s t → Owned pid s → Owned pid t
  unfolding atomic_cmp_set shmtx_force_unlock
  Step-Owned {s} (try_busy i h b) o = o
  Step-Owned {s} (try_free i h f) o = record {
    owner = λ j e. ground (arith, o.owner j);
    owned = λ j e. ground (arith, o.owned j, nonzero j);
    taken = o.taken;
  }
  Step-Owned {s} (try_won i h c) o = record {
    owner =
        λ j e. ground (arith, o.owner j, o.owned i, o.owned j, nonzero j, nonzero i, distinct i j);
    owned = λ j e. ground (arith, o.owned j, o.owner i, nonzero j, nonzero i, distinct i j);
    taken = inr (i, ground arith);
  }
  Step-Owned {s} (try_lost i h c) o = record {
    owner =
        λ j e. ground (arith, o.owner j, o.owned i, o.owned j, nonzero j, nonzero i, distinct i j);
    owned = λ j e. ground (arith, o.owned j, o.owner i, nonzero j, nonzero i, distinct i j);
    taken = Taken-lost pid s.word 0 (pid i) c o.taken;
  }
  Step-Owned {s} (lock_call i h) o = record {
    owner =
        λ j e. ground (arith, o.owner j, o.owned i, o.owned j, nonzero j, nonzero i, distinct i j);
    owned = λ j e. ground (arith, o.owned j, o.owner i, nonzero j, nonzero i, distinct i j);
    taken = o.taken;
  }
  Step-Owned {s} (lock_busy i h b) o = o
  Step-Owned {s} (lock_free i h f) o = record {
    owner =
        λ j e. ground (arith, o.owner j, o.owned i, o.owned j, nonzero j, nonzero i, distinct i j);
    owned = λ j e. ground (arith, o.owned j, o.owner i, nonzero j, nonzero i, distinct i j);
    taken = o.taken;
  }
  Step-Owned {s} (lock_won i h c) o = record {
    owner =
        λ j e. ground (arith, o.owner j, o.owned i, o.owned j, nonzero j, nonzero i, distinct i j);
    owned = λ j e. ground (arith, o.owned j, o.owner i, nonzero j, nonzero i, distinct i j);
    taken = inr (i, ground arith);
  }
  Step-Owned {s} (lock_lost i h c) o = record {
    owner =
        λ j e. ground (arith, o.owner j, o.owned i, o.owned j, nonzero j, nonzero i, distinct i j);
    owned = λ j e. ground (arith, o.owned j, o.owner i, nonzero j, nonzero i, distinct i j);
    taken = Taken-lost pid s.word 0 (pid i) c o.taken;
  }
  Step-Owned {s} (unlock i h) o = record {
    owner =
        λ j e. ground (arith, o.owner j, o.owned i, o.owned j, nonzero j, nonzero i, distinct i j);
    owned = λ j e. ground (arith, o.owned j, o.owner i, nonzero j, nonzero i, distinct i j);
    taken = inl (ground (arith, o.owner i));
  }
  Step-Owned {s} (unlock_outside i h) o = record {
    owner =
        λ j e. ground (arith, o.owner j, o.owned i, o.owned j, nonzero j, nonzero i, distinct i j);
    owned = λ j e. ground (arith, o.owned j, o.owner i, nonzero j, nonzero i, distinct i j);
    taken = Taken-clear pid s.word (pid i) o.taken;
  }

  Reach-Owned : {s : System} → Reach pid s → Owned pid s
  Reach-Owned here = record {
    owner = λ i e. cc;
    owned = λ i e. ground (arith, nonzero i);
    taken = inl refl;
  }
  Reach-Owned (next r st) = Step-Owned st (Reach-Owned r)

  -- With distinct ids other than 0, no two processes are past the lock together, in whatever order
  -- their reads and swaps interleave.
  pub mutual_exclusion :
      {s : System} → Reach pid s → (i j : ℕ) → s.pc i ≡ Pc.inside → s.pc j ≡ Pc.inside → i ≡ j
  mutual_exclusion r i j a b =
      let o = Reach-Owned r in distinct i j (sym (o.owner i a) ∙ o.owner j b)

  -- In every reachable state the lock is held by a process that is inside, or the word is 0 and any
  -- process in the loop of `shmtx_lock` gets in by two steps of its own.
  pub no_deadlock :
      {s : System}
      → Reach pid s
      → (i : ℕ) → s.pc i ≡ Pc.waiting
      → ((j : ℕ) × (s.pc j ≡ Pc.inside))
        ⊎ ((t : System) × (u : System) × Step pid s t × Step pid t u × (u.pc i ≡ Pc.inside))
  unfolding atomic_cmp_set
  no_deadlock {s} r i w = elim (Reach-Owned r).taken [
    | inr (j, e) ↦ inl (j, (Reach-Owned r).owned j e)
    | inl e ↦ inr (
      move s i Pc.swapping,
      _,
      lock_free i w e,
      lock_won i (ground arith) (ground arith),
      ground arith,
    )
  ]

  -- A process that is not inside takes the lock from nobody: its `shmtx_unlock` and its
  -- `shmtx_force_unlock` leave the word as it is, and the latter answers 0. One that is inside frees
  -- the word, and the answer is 1.
  pub unlock_by :
      {s : System}
      → Reach pid s
      → (i : ℕ)
      → (s.pc i ≢ Pc.inside → shmtx_force_unlock s.word (pid i) ≡ (false, s.word))
        × (s.pc i ≡ Pc.inside → shmtx_force_unlock s.word (pid i) ≡ (true, 0))
  unfolding shmtx_force_unlock
  unlock_by {s} r i =
      let o = Reach-Owned r in
      (
        λ out. elim (Bool-cases (s.word == pid i)) [
          | inl e ↦ absurd (out (o.owned i (==→eq s.word (pid i) e)))
          | inr e ↦ rw e
        ],
        λ a. rw (eq→== s.word (pid i) (o.owner i a)),
      )
