-- ===== src/Rbtree/Whole.antt =====
-- `rbtree_insert` and `rbtree_min` on a whole red-black tree.
use mathlib.Core.Path.{subst}
use libcn.Prelude.{
  ℕ, suc, ◌<◌, ◌≡◌, refl, Ptr, null, Bool, true, false, some, List, [], ◌∷◌, arith, has, length,
  Distinct, ◌==◌, ◌||◌, write, ◌∙◌, ap, sym, Bool-cases, inl, inr, ltb, ◌*◌, ◌^◌, ◌≤◌, ◌++◌, ==→eq,
}
use package.libcn.Rbtree.{Rbtree, rbt_black, insert_fix, insert_value, rbtree_insert}
use package.libcn.Rbtree.Shape.{Shape, leaf, fork, nodes, member, IsTree, height}
use package.libcn.Rbtree.Insert.{grow, insert_value-grow}
use package.libcn.Rbtree.Search.{member-grow, grow-Unique, grow-Search}
use package.libcn.Rbtree.Zip.{member-nodes, nodes-Unique}
use package.libcn.Rbtree.Colour.{red_of_link, IsRedBlack}
use package.libcn.Rbtree.Loop.{insert_fix-Rebalanced}
use package.libcn.Rbtree.Way.{way, length-way}
use package.libcn.Rbtree.Ascending.{Ascending, Search-Ascending, Ascending-Search, Unique-nodes}
use package.libcn.Rbtree.{rbtree_min}
use package.libcn.Rbtree.Shape.{leftmost, rbtree_min-leftmost}
use package.libcn.Rbtree.RedBlack.{RedBlack, start, blacken}
use package.libcn.Rbtree.Height.{fuel_lem}

into_empty :
    (fuel : ℕ) (less : ℕ → ℕ → Bool) (t : Rbtree) (node : Ptr)
    → (t.root == t.sentinel) ≡ true
    → rbtree_insert fuel less t node
      ≡ some (record t {
        left = write t.left node t.sentinel;
        right = write t.right node t.sentinel;
        parent = write t.parent node null;
        red = write t.red node false;
        root = node;
      })
unfolding rbtree_insert
into_empty fuel less t node e = rw e refl

into_full :
    (fuel : ℕ) (less : ℕ → ℕ → Bool) (t t1 t2 : Rbtree) (node : Ptr)
    → (t.root == t.sentinel) ≡ false
    → insert_value fuel less t t.root node ≡ some t1
    → insert_fix fuel t1 node ≡ some t2
    → rbtree_insert fuel less t node ≡ some (rbt_black t2 t2.root)
unfolding rbtree_insert
into_full fuel less t t1 t2 node e f g = rw (e, f, g) refl

-- What an insertion leaves.
abbrev Grown : ℕ → (ℕ → ℕ → Bool) → Rbtree → Ptr → List Ptr → Type 0
Grown fuel less t node ms =
    (v : Rbtree) × (rbtree_insert fuel less t node ≡ some v)
    × RedBlack v ms
    × (v.key ≡ t.key)
    × (v.sentinel ≡ t.sentinel)

Grown-empty :
    (fuel : ℕ) (less : ℕ → ℕ → Bool) (t : Rbtree) (node : Ptr)
    → t.root ≡ t.sentinel
    → t.red t.sentinel ≡ false
    → (node == t.sentinel) ≡ false
    → (node == null) ≡ false
    → Grown fuel less t node (node ∷ [])
Grown-empty fuel less t node e sentinel real present = (
  _,
  into_empty fuel less t node (ground arith),
  record {
    shape = fork leaf node leaf;
    blacks = 1;
    tree = (refl, real, ground arith, ground arith, ground arith);
    order = refl;
    distinct = (refl, tt);
    no_null = ground arith;
    balanced = (0, ground arith, refl, refl, λ i. absurd (ground arith));
    root_black = ground arith;
    sentinel = ground arith;
  },
  refl,
  refl,
)

Grown-full :
    (fuel : ℕ) (less : ℕ → ℕ → Bool) (t : Rbtree) (node x : Ptr) (l r : Shape) (h : ℕ)
    → IsTree t null t.root (fork l x r)
    → Distinct (nodes (fork l x r))
    → has null (nodes (fork l x r)) ≡ false
    → IsRedBlack t.red (fork l x r) h
    → t.red x ≡ false
    → t.red t.sentinel ≡ false
    → member node (fork l x r) ≡ false
    → (node == t.sentinel) ≡ false
    → (node == null) ≡ false
    → height (fork l x r) < fuel
    → Grown fuel less t node (nodes (grow less t.key node (fork l x r)))
Grown-full fuel less t node x l r h tree distinct no_null balanced black sentinel out real present
      enough =
    let sh = fork l x r in
    let sh' = grow less t.key node sh in
    let u = nodes-Unique sh distinct in
    let (t1, placed, ins) =
      insert_value-grow fuel less t null t.root x node l r tree u out real (omega arith) in
    let distinct' = Unique-nodes sh' (grow-Unique less t.key node sh u out) in
    let no_null' : has null (nodes sh') ≡ false =
      ground
        (arith, member-nodes null sh', member-grow less t.key node sh null, member-nodes null sh) in
    let s = start less t t1 node sh h balanced black out real sentinel ins in
    let short = length-way less t.key node sh [] in
    let (t2, fixed, f, same_key, same_sentinel) =
      insert_fix-Rebalanced fuel null (nodes sh') distinct' no_null' t1 node (fork leaf node leaf)
        (way less t.key node sh []) 0 s (omega arith) in
    (
      rbt_black t2 t2.root,
      into_full fuel less t t1 t2 node (not_empty tree) placed fixed,
      blacken t2 (nodes sh') distinct' no_null' f,
      same_key ∙ ins.key,
      same_sentinel ∙ ins.sentinel,
    )
  where
    not_empty : IsTree t null t.root (fork l x r) → (t.root == t.sentinel) ≡ false
    not_empty (e, n, _, _, _) = rw e n

-- With fuel above the height, `rbtree_insert` of a node that is not in a red-black tree, is not its
-- sentinel and is not NULL ends, and leaves a red-black tree whose nodes from left to right are those
-- of the old tree and the new node, at the place where the search by `less` ends; no key and not the
-- sentinel has changed.
pub rbtree_insert-RedBlack :
    (fuel : ℕ) (less : ℕ → ℕ → Bool) (t : Rbtree) (ns : List Ptr) (node : Ptr) (r : RedBlack t ns)
    → has node ns ≡ false
    → (node == t.sentinel) ≡ false
    → (node == null) ≡ false
    → height r.shape < fuel
    → (v : Rbtree) × (rbtree_insert fuel less t node ≡ some v)
      × RedBlack v (nodes (grow less t.key node r.shape))
      × (v.key ≡ t.key)
      × (v.sentinel ≡ t.sentinel)
rbtree_insert-RedBlack fuel less t ns node r out real present enough =
    by_shape r.shape r.tree (rw r.order r.distinct) (rw r.order r.no_null) r.balanced
      (member-nodes node r.shape ∙ ap (has node) r.order ∙ out) enough
  where
    by_shape :
        (sh : Shape)
        → IsTree t null t.root sh
        → Distinct (nodes sh)
        → has null (nodes sh) ≡ false
        → IsRedBlack t.red sh r.blacks
        → member node sh ≡ false
        → height sh < fuel
        → Grown fuel less t node (nodes (grow less t.key node sh))
    by_shape leaf e d o b m lt = Grown-empty fuel less t node e r.sentinel real present
    by_shape (fork l x m) (e, n, p, lt, rt) d o b i le =
        let black : t.red x ≡ false = rw⁻¹ e r.root_black in
        Grown-full fuel less t node x l m r.blacks (e, n, p, lt, rt) d o b black r.sentinel i real
          present le

-- The fuel that a red-black tree needs is logarithmic in the number of its nodes.
height_of :
    (fuel : ℕ) (t : Rbtree) (ns : List Ptr) (r : RedBlack t ns)
    → suc (length ns) * suc (length ns) < 2 ^ fuel
    → height r.shape < fuel
height_of fuel t ns r enough =
    fuel_lem t.red r.shape r.blacks fuel r.balanced
      (sym (red_of_link t null t.root r.shape r.tree r.sentinel) ∙ r.root_black) (rw r.order enough)

-- With fuel above `2 log (n + 1)` for a red-black tree of `n` nodes whose keys do not fall from left to
-- right, `rbtree_insert` with the comparison of `rbtree_insert_value` ends for a node that is not in the
-- tree, is not its sentinel and is not NULL: it leaves a red-black tree whose keys do not fall from left
-- to right, of the old nodes and the new one.
pub rbtree_insert-Ascending :
    (fuel : ℕ) (t : Rbtree) (ns : List Ptr) (node : Ptr)
    → RedBlack t ns
    → Ascending t.key ns
    → has node ns ≡ false
    → (node == t.sentinel) ≡ false
    → (node == null) ≡ false
    → suc (length ns) * suc (length ns) < 2 ^ fuel
    → (v : Rbtree) × (ms : List Ptr) × (rbtree_insert fuel ltb t node ≡ some v)
      × RedBlack v ms
      × Ascending v.key ms
      × ((a : Ptr) → has a ms ≡ ((a == node) || has a ns))
rbtree_insert-Ascending fuel t ns node r up out real present enough =
    let (v, done, r', same_key, _) =
      rbtree_insert-RedBlack fuel ltb t ns node r out real present (height_of fuel t ns r enough) in
    let sh' = grow ltb t.key node r.shape in
    let up' : Ascending t.key (nodes sh') =
      Search-Ascending t.key sh'
        (grow-Search t.key node r.shape (Ascending-Search t.key r.shape (rw r.order up))) in
    (
      v,
      nodes sh',
      done,
      r',
      subst (λ key. Ascending key (nodes sh')) (sym same_key) up',
      λ a.
          sym (member-nodes a sh')
          ∙ member-grow ltb t.key node r.shape a
          ∙ ap (λ b. (a == node) || b) (member-nodes a r.shape ∙ ap (has a) r.order),
    )

leftmost_lem : (l r : Shape) (x : Ptr) → (xs : List Ptr) × (nodes (fork l x r) ≡ leftmost l x ∷ xs)
leftmost_lem leaf r x = (nodes r, refl)
leftmost_lem (fork l y m) r x =
    let (xs, e) = leftmost_lem l m y in (xs ++ x ∷ nodes r, ap (λ zs. zs ++ x ∷ nodes r) e)

-- With fuel above `2 log (n + 1)` for a red-black tree of `n` nodes that is not empty and whose keys do
-- not fall from left to right, `rbtree_min` from the root returns a node of the tree, and no node of the tree has a smaller key.
pub rbtree_min-least :
    (fuel : ℕ) (t : Rbtree) (ns : List Ptr)
    → RedBlack t ns
    → Ascending t.key ns
    → (t.root == t.sentinel) ≡ false
    → suc (length ns) * suc (length ns) < 2 ^ fuel
    → (x : Ptr) × (rbtree_min fuel t t.root ≡ some x)
      × (has x ns ≡ true)
      × ((a : Ptr) → has a ns ≡ true → t.key x ≤ t.key a)
rbtree_min-least fuel t ns r up full enough =
    by_shape r.shape r.tree r.order (height_of fuel t ns r enough)
  where
    first :
        (x : Ptr) (xs : List Ptr)
        → Ascending t.key (x ∷ xs)
        → (a : Ptr) → has a (x ∷ xs) ≡ true
        → t.key x ≤ t.key a
    first x xs (low, _) a i = elim (Bool-cases (a == x)) [
      | inl e ↦ rw (==→eq a x e) (omega arith)
      | inr n ↦ low a (ground arith)
    ]

    by_shape :
        (sh : Shape)
        → IsTree t null t.root sh
        → nodes sh ≡ ns
        → height sh < fuel
        → (x : Ptr) × (rbtree_min fuel t t.root ≡ some x)
          × (has x ns ≡ true)
          × ((a : Ptr) → has a ns ≡ true → t.key x ≤ t.key a)
    by_shape leaf e o lt = absurd (ground arith)
    by_shape (fork l y m) tree o lt =
        let (xs, e) = leftmost_lem l m y in
        let order : ns ≡ leftmost l y ∷ xs = sym o ∙ e in
        (
          leftmost l y,
          rbtree_min-leftmost fuel t null t.root l m y tree (omega arith),
          rw order (ground arith),
          rw order (first (leftmost l y) xs (rw order at up)),
        )
