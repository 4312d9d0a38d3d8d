-- ===== src/Rbtree/Ascending.antt =====
-- Search trees by the list of their nodes, which the rotations leave as it is.
use libcn.Prelude.{
  ℕ, ◌≤◌, ◌≡◌, Ptr, true, false, List, [], ◌∷◌, ◌++◌, arith, has, has-append, ◌==◌, Bool-cases, inl,
  inr, ==→eq, Distinct,
}
use package.libcn.Rbtree.Shape.{Shape, leaf, fork, nodes, Unique}
use package.libcn.Rbtree.Search.{Search}
use package.libcn.Rbtree.Zip.{member-nodes}

-- The keys do not fall from left to right.
abbrev pub Ascending : (Ptr → ℕ) → List Ptr → Type 0
Ascending key [] = Unit
Ascending key (x ∷ xs) = ((a : Ptr) → has a xs ≡ true → key x ≤ key a) × Ascending key xs

Ascending-append :
    (key : Ptr → ℕ) (xs ys : List Ptr)
    → Ascending key xs
    → Ascending key ys
    → ((a b : Ptr) → has a xs ≡ true → has b ys ≡ true → key a ≤ key b)
    → Ascending key (xs ++ ys)
Ascending-append key [] ys ax ay le = ay
Ascending-append key (x ∷ xs) ys (first, ax) ay le = (
  λ a i. elim (Bool-cases (has a xs)) [
    | inl j ↦ first a j
    | inr j ↦ le x a (ground arith) (ground (arith, has-append a xs ys))
  ],
  Ascending-append key xs ys ax ay (λ a b i j. le a b (ground arith) j),
)

Ascending-parts :
    (key : Ptr → ℕ) (xs ys : List Ptr)
    → Ascending key (xs ++ ys)
    → Ascending key xs
      × Ascending key ys
      × ((a b : Ptr) → has a xs ≡ true → has b ys ≡ true → key a ≤ key b)
Ascending-parts key [] ys a = (tt, a, λ a b i j. absurd (ground arith))
Ascending-parts key (x ∷ xs) ys (first, a) =
    let (ax, ay, le) = Ascending-parts key xs ys a in
    (
      (λ b i. first b (ground (arith, has-append b xs ys)), ax),
      ay,
      λ b c i j. elim (Bool-cases (b == x)) [
        | inl e ↦ rw (==→eq b x e) (first c (ground (arith, has-append c xs ys)))
        | inr n ↦ le b c (ground arith) j
      ],
    )

pub Search-Ascending : (key : Ptr → ℕ) (sh : Shape) → Search key sh → Ascending key (nodes sh)
Search-Ascending key leaf s = tt
Search-Ascending key (fork l x r) (low, high, sl, sr) =
    let low' = λ (a : Ptr) (i : has a (nodes l) ≡ true). low a (ground (arith, member-nodes a l)) in
    let high' =
      λ (a : Ptr) (i : has a (nodes r) ≡ true). high a (ground (arith, member-nodes a r)) in
    Ascending-append key (nodes l) (x ∷ nodes r) (Search-Ascending key l sl)
      (high', Search-Ascending key r sr)
      (λ a b i j. elim (Bool-cases (b == x)) [
        | inl e ↦ rw (==→eq b x e) (low' a i)
        | inr n ↦ ground (arith, low' a i, high' b (ground arith))
      ])

pub Ascending-Search : (key : Ptr → ℕ) (sh : Shape) → Ascending key (nodes sh) → Search key sh
Ascending-Search key leaf a = tt
Ascending-Search key (fork l x r) a =
    let (al, (first, ar), le) = Ascending-parts key (nodes l) (x ∷ nodes r) a in
    (
      λ b i. le b x (ground (arith, member-nodes b l)) (ground arith),
      λ b i. first b (ground (arith, member-nodes b r)),
      Ascending-Search key l al,
      Ascending-Search key r ar,
    )

Distinct-join :
    (xs ys : List Ptr)
    → Distinct xs
    → Distinct ys
    → ((a : Ptr) → has a xs ≡ true → has a ys ≡ false)
    → Distinct (xs ++ ys)
Distinct-join [] ys dx dy apart = dy
Distinct-join (x ∷ xs) ys (o, dx) dy apart = (
  ground (arith, has-append x xs ys, apart x),
  Distinct-join xs ys dx dy (λ a i. apart a (ground arith)),
)

pub Unique-nodes : (sh : Shape) → Unique sh → Distinct (nodes sh)
Unique-nodes leaf u = tt
Unique-nodes (fork l x r) (xl, xr, apart, ul, ur) =
    Distinct-join (nodes l) (x ∷ nodes r) (Unique-nodes l ul)
      (ground (arith, member-nodes x r), Unique-nodes r ur)
      (λ a i. elim (Bool-cases (a == x)) [
        | inl e ↦ absurd (ground (arith, member-nodes a l, member-nodes x l, ==→eq a x e))
        | inr n ↦ ground (arith, member-nodes a l, member-nodes a r, apart a)
      ])
