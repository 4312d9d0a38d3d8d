-- ===== src/Queue/Stable.antt =====
-- What the insertion sort of `queue_sort` gives under a comparison of keys.
use mathlib.Core.List.{reverse_aux}
use libcn.Prelude.{
  ℕ, ◌≤◌, ◌<◌, ◌≡◌, refl, sym, ap, ◌∙◌, Ptr, Bool, some, List, [], ◌∷◌, arith, length, ◌==◌, ltb,
  ltb→lt, if◌then◌else◌, Bool-cases, inl, inr,
}
use package.libcn.Queue.{Links, queue_sort}
use package.libcn.Queue.Ring.{Ring}
use package.libcn.Queue.Sort.{insert_back, sort_onto, sorted, queue_sort-sorted}

-- `cmp(a, b) > 0` for a comparison of keys.
abbrev pub key_gt : (Ptr → ℕ) → Ptr → Ptr → Bool
key_gt key a b = ltb (key b) (key a)

module _ (key : Ptr → ℕ) where
  abbrev HeadGe : ℕ → List Ptr → Type 0
  HeadGe v [] = Unit
  HeadGe v (x ∷ xs) = v ≤ key x

  abbrev HeadLe : ℕ → List Ptr → Type 0
  HeadLe v [] = Unit
  HeadLe v (x ∷ xs) = key x ≤ v

  -- Each key is at most the next.
  abbrev pub Ascending : List Ptr → Type 0
  Ascending [] = Unit
  Ascending (x ∷ xs) = HeadGe (key x) xs × Ascending xs

  abbrev Descending : List Ptr → Type 0
  Descending [] = Unit
  Descending (x ∷ xs) = HeadLe (key x) xs × Descending xs

  -- The nodes with the key `k`, in order.
  abbrev pub with_key : ℕ → List Ptr → List Ptr
  with_key k [] = []
  with_key k (x ∷ xs) = if key x == k then x ∷ with_key k xs else with_key k xs

  insert_back-HeadLe :
      (v q : ℕ) (rs : List Ptr) → key q ≤ v → HeadLe v rs → HeadLe v (insert_back (key_gt key) q rs)
  unfolding insert_back
  insert_back-HeadLe v q [] h k = h
  insert_back-HeadLe v q (p ∷ rs) h k = ground arith

  insert_back-Descending :
      (q : Ptr) (rs : List Ptr) → Descending rs → Descending (insert_back (key_gt key) q rs)
  unfolding insert_back
  insert_back-Descending q [] d = (tt, tt)
  insert_back-Descending q (p ∷ rs) (h, d) = elim (Bool-cases (key_gt key p q)) [
    | inl more ↦
        let lt = ltb→lt (key q) (key p) more in
        rw more (insert_back-HeadLe (key p) q rs (omega arith) h, insert_back-Descending q rs d)
    | inr done ↦ rw done (ground arith, (h, d))
  ]

  -- The first of `rs` is at most the first of `us`.
  abbrev Meet : List Ptr → List Ptr → Type 0
  Meet [] us = Unit
  Meet (p ∷ rs) us = HeadGe (key p) us

  Meet-nil : (rs : List Ptr) → Meet rs []
  Meet-nil [] = tt
  Meet-nil (p ∷ rs) = tt

  reverse_aux-Ascending :
      (rs us : List Ptr) → Descending rs → Ascending us → Meet rs us → Ascending (reverse_aux rs us)
  reverse_aux-Ascending [] us d a j = a
  reverse_aux-Ascending (p ∷ []) us d a j = (j, a)
  reverse_aux-Ascending (p ∷ r ∷ rs) us (h, d) a j =
      reverse_aux-Ascending (r ∷ rs) (p ∷ us) d (j, a) h

  sort_onto-Ascending :
      (rs us : List Ptr) → Descending rs → Ascending (sort_onto (key_gt key) rs us)
  unfolding sort_onto
  sort_onto-Ascending rs [] d = reverse_aux-Ascending rs [] d tt (Meet-nil rs)
  sort_onto-Ascending rs (q ∷ us) d =
      sort_onto-Ascending (insert_back (key_gt key) q rs) us (insert_back-Descending q rs d)

  with_key-reverse_aux :
      (k : ℕ) (rs us : List Ptr)
      → with_key k (reverse_aux rs us) ≡ reverse_aux (with_key k rs) (with_key k us)
  with_key-reverse_aux k [] us = refl
  with_key-reverse_aux k (p ∷ rs) us = ground (arith, with_key-reverse_aux k rs (p ∷ us))

  with_key-insert_back :
      (k : ℕ) (q : Ptr) (rs : List Ptr)
      → with_key k (insert_back (key_gt key) q rs) ≡ with_key k (q ∷ rs)
  unfolding insert_back
  with_key-insert_back k q [] = refl
  with_key-insert_back k q (p ∷ rs) = ground (arith, with_key-insert_back k q rs)

  with_key-sort_onto :
      (k : ℕ) (rs us : List Ptr)
      → with_key k (sort_onto (key_gt key) rs us) ≡ with_key k (reverse_aux rs us)
  unfolding sort_onto
  with_key-sort_onto k rs [] = refl
  with_key-sort_onto k rs (q ∷ us) =
      with_key-sort_onto k (insert_back (key_gt key) q rs) us
      ∙ with_key-reverse_aux k (insert_back (key_gt key) q rs) us
      ∙ ap (λ ys. reverse_aux ys (with_key k us)) (with_key-insert_back k q rs)
      ∙ sym (with_key-reverse_aux k (q ∷ rs) us)

  sorted-Ascending : (xs : List Ptr) → Ascending (sorted (key_gt key) xs)
  unfolding sorted
  sorted-Ascending [] = tt
  sorted-Ascending (x ∷ xs) = sort_onto-Ascending (x ∷ []) xs (tt, tt)

  with_key-sorted : (k : ℕ) (xs : List Ptr) → with_key k (sorted (key_gt key) xs) ≡ with_key k xs
  unfolding sorted
  with_key-sorted k [] = refl
  with_key-sorted k (x ∷ xs) = with_key-sort_onto k (x ∷ []) xs

  -- Under a comparison of keys, and with fuel above the number of nodes, `queue_sort` returns
  -- links in which the queue is a ring with ascending keys, and the nodes of each key stand in it
  -- in the order in which they stood before: no node is lost, added or doubled, and the sort is
  -- stable.
  pub queue_sort_stable :
      (fuel : ℕ) (l : Links) (h : Ptr) (xs : List Ptr)
      → Ring l h xs
      → length xs < fuel
      → (g : Links) × (ys : List Ptr) × (queue_sort fuel (key_gt key) l h ≡ some g)
        × Ring g h ys
        × Ascending ys
        × ((k : ℕ) → with_key k ys ≡ with_key k xs)
  queue_sort_stable fuel l h xs r lt =
      let (g, done, ring) = queue_sort-sorted fuel (key_gt key) l h xs r lt in
      (g, sorted (key_gt key) xs, done, ring, sorted-Ascending xs, λ k. with_key-sorted k xs)
