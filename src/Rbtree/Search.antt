-- ===== src/Rbtree/Search.antt =====
-- The search order: an insertion by key keeps it.
use libcn.Prelude.{
  ℕ, ◌≤◌, ◌≡◌, refl, Ptr, Bool, true, false, some, arith, ◌==◌, ◌||◌, Bool-cases, inl, inr, ltb,
  ==→eq,
}
use package.libcn.Rbtree.{Rbtree, insert_value}
use package.libcn.Rbtree.Shape.{Shape, leaf, fork, member, Unique, IsTree, height}
use package.libcn.Rbtree.Insert.{grow, insert_value-grow}

-- No key to the left of a node is greater than its key, and none to the right is smaller.
abbrev pub Search : (Ptr → ℕ) → Shape → Type 0
Search key leaf = Unit
Search key (fork l x r) =
    ((a : Ptr) → member a l ≡ true → key a ≤ key x)
    × ((a : Ptr) → member a r ≡ true → key x ≤ key a)
    × Search key l
    × Search key r

pub member-grow :
    (less : ℕ → ℕ → Bool) (key : Ptr → ℕ) (node : Ptr) (sh : Shape) (a : Ptr)
    → member a (grow less key node sh) ≡ ((a == node) || member a sh)
member-grow less key node leaf a = ground arith
member-grow less key node (fork l x r) a = elim (Bool-cases (less (key node) (key x))) [
  | inl b ↦ rw b (ground (arith, member-grow less key node l a))
  | inr b ↦ rw b (ground (arith, member-grow less key node r a))
]

pub grow-Unique :
    (less : ℕ → ℕ → Bool) (key : Ptr → ℕ) (node : Ptr) (sh : Shape)
    → Unique sh
    → member node sh ≡ false
    → Unique (grow less key node sh)
grow-Unique less key node leaf u out = (refl, refl, λ a i. ground arith, tt, tt)
grow-Unique less key node (fork l x r) (xl, xr, apart, ul, ur) out =
    elim (Bool-cases (less (key node) (key x))) [
      | inl b ↦ rw b (
        ground (arith, member-grow less key node l x),
        xr,
        λ a i. ground (arith, member-grow less key node l a, apart a),
        grow-Unique less key node l ul (ground arith),
        ur,
      )
      | inr b ↦ rw b (
        xl,
        ground (arith, member-grow less key node r x),
        λ a i. ground (arith, member-grow less key node r a, apart a),
        ul,
        grow-Unique less key node r ur (ground arith),
      )
    ]

pub grow-Search :
    (key : Ptr → ℕ) (node : Ptr) (sh : Shape) → Search key sh → Search key (grow ltb key node sh)
grow-Search key node leaf s = (λ a i. ground arith, λ a i. ground arith, tt, tt)
grow-Search key node (fork l x r) (low, high, sl, sr) = elim (Bool-cases (ltb (key node) (key x))) [
  | inl b ↦ rw b (
    λ a i. below b a (ground (arith, member-grow ltb key node l a)),
    high,
    grow-Search key node l sl,
    sr,
  )
  | inr b ↦ rw b (
    low,
    λ a i. above b a (ground (arith, member-grow ltb key node r a)),
    sl,
    grow-Search key node r sr,
  )
]
  where
    below :
        ltb (key node) (key x) ≡ true
        → (a : Ptr) → ((a == node) || member a l) ≡ true
        → key a ≤ key x
    below b a i = elim (Bool-cases (a == node)) [
      | inl e ↦ rw (==→eq a node e) (ground arith)
      | inr n ↦ low a (ground arith)
    ]

    above :
        ltb (key node) (key x) ≡ false
        → (a : Ptr) → ((a == node) || member a r) ≡ true
        → key x ≤ key a
    above b a i = elim (Bool-cases (a == node)) [
      | inl e ↦ rw (==→eq a node e) (ground arith)
      | inr n ↦ high a (ground arith)
    ]

-- With fuel that is at least the height, the descent of `rbtree_insert_value` in a search tree of
-- unique nodes, with a node that is not in it and not the sentinel, ends,
-- and leaves a search tree with the same links back, which holds the old nodes and the new one, each
-- once.
pub insert_value-Search :
    (fuel : ℕ) (t : Rbtree) (q p x node : Ptr) (l r : Shape)
    → IsTree t q p (fork l x r)
    → Unique (fork l x r)
    → Search t.key (fork l x r)
    → member node (fork l x r) ≡ false
    → (node == t.sentinel) ≡ false
    → height (fork l x r) ≤ fuel
    → (v : Rbtree) × (sh : Shape) × (insert_value fuel ltb t p node ≡ some v)
      × IsTree v q p sh
      × Unique sh
      × Search v.key sh
      × ((a : Ptr) → member a sh ≡ ((a == node) || member a (fork l x r)))
insert_value-Search fuel t q p x node l r tree u s out real enough =
    let (v, done, ins) = insert_value-grow fuel ltb t q p x node l r tree u out real enough in
    (
      v,
      grow ltb t.key node (fork l x r),
      done,
      ins.tree,
      grow-Unique ltb t.key node (fork l x r) u out,
      rw ins.key (grow-Search t.key node (fork l x r) s),
      λ a. member-grow ltb t.key node (fork l x r) a,
    )
