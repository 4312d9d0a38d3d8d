-- ===== src/Pool/Release.antt =====
-- Large allocations: what `palloc_large` hands out `pfree` takes back, once.
use mathlib.Core.Option
use libcn.Prelude.{
  ◌≡◌, ◌≢◌, refl, Ptr, null, Bool, true, false, Option, none, some, List, [], ◌∷◌, ◌==◌,
  if◌then◌else◌, has, map, Bool-cases, inl, inr, ne→==,
}
use libcn.Alloc.{Libc, alloc}
use package.libcn.Pool.{Large, Pool, free_large, pfree}

abbrev allocs : List Large → List Ptr
allocs ls = map (λ l. l.alloc) ls

-- The list with the first entry that holds `p` emptied.
abbrev pub emptied : Ptr → List Large → List Large
emptied p [] = []
emptied p (l ∷ ls) = if p == l.alloc then record l { alloc = null } ∷ ls else l ∷ emptied p ls

free_large_lem :
    (p : Ptr) (ls : List Large)
    → free_large p ls ≡ (if has p (allocs ls) then some (emptied p ls) else none)
unfolding free_large
free_large_lem p [] = refl
free_large_lem p (l ∷ ls) = elim (Bool-cases (p == l.alloc)) [
  | inl e ↦ rw (e, free_large)
  | inr e ↦ rw (e, free_large) (rw (free_large_lem p ls) (split (has p (allocs ls))))
]
  where
    split :
        (b : Bool)
        → Option.map (λ ms. l ∷ ms) (if b then some (emptied p ls) else none)
          ≡ (if b then some (l ∷ emptied p ls) else none)
    split true = refl
    split false = refl

abbrev HoldsSome : Ptr → Option (List Large) → Type 0
HoldsSome p none = Unit
HoldsSome p (some ls) = has p (allocs ls) ≡ true

-- On every pool: `pfree` answers 0 exactly when an entry of `pool->large` holds `p`; then it frees
-- `p`, once, and empties the first such entry; otherwise it changes nothing. The blocks stay.
pub pfree_lem :
    (s : Libc) (pool : Pool) (p : Ptr)
    → p ≢ null
    → pfree s pool p ≡ (
        if has p (allocs pool.large)
        then (true, record pool { large = emptied p pool.large }, record s { freed = p ∷ s.freed })
        else (false, pool, s))
unfolding pfree
pfree_lem s pool p n =
    let used = ne→== p null n in
    rw (free_large_lem p pool.large, pfree)
      (elim (Bool-cases (has p (allocs pool.large))) [ inl e ↦ rw e (rw used) | inr e ↦ rw e ])

-- What a request for a large region gives: `pfree` takes an address of it back.
abbrev pub Returnable : Option Ptr × Pool × Libc → Type 0
Returnable (none, pool, s) = Unit
Returnable (some a, pool, s) =
    a ≢ null
    → pfree s pool a
      ≡ (true, record pool { large = emptied a pool.large }, record s { freed = a ∷ s.freed })
