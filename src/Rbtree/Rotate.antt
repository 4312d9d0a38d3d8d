-- ===== src/Rbtree/Rotate.antt =====
-- The rotations: the order of the nodes and all links back stay.
use mathlib.Core.List.{append_assoc}
use libcn.Prelude.{◌≡◌, refl, Ptr, true, false, List, [], ◌∷◌, arith, ◌==◌}
use package.libcn.Rbtree.{Rbtree, rbtree_left_rotate}
use package.libcn.Rbtree.Shape.{Shape, fork, nodes, member, Unique, IsTree, IsTree-frame}
use package.libcn.Rbtree.Context.{
  Frame, on_left, on_right, plug, above, UniqueAbove, IsContext, IsContext-frame, root-above,
  parent-above, nodes-plug,
}
use package.libcn.Rbtree.Relink.{
  Rotated, left_rotate-Rotated, root-member, same-IsTree, moved-IsTree,
}

-- The context, which changes its link into the tree.
moved-IsContext :
    (t v : Rbtree) (top x y q : Ptr) (sh : Shape) (k : List Frame)
    → Rotated t v x y q
    → IsContext t top x q k
    → UniqueAbove k
    → (x == t.sentinel) ≡ false
    → member x sh ≡ true
    → member y sh ≡ true
    → ((t.left y == t.sentinel) ≡ false → member (t.left y) sh ≡ true)
    → ((a : Ptr) → above a k ≡ true → member a sh ≡ false)
    → IsContext v top y q k
moved-IsContext t v top x y q sh [] d (e, f) u real mx my mz apart = (ground (arith, d.root), f)
moved-IsContext t v top x y q sh (on_left z r ∷ k) d c u real mx my mz apart =
    let (e, n, l, tree, rest) = c in
    let (zr, zk, uk) = u in
    let below : (x == t.root) ≡ false =
      ground (arith, root-above t top x q (on_left z r) k c, apart t.root) in
    let out = apart z (ground arith) in
    let same_right : v.right z ≡ t.right z = ground (arith, d.right z) in
    let same_parent : v.parent z ≡ t.parent z = ground (arith, d.parent z) in
    let same_root : v.root ≡ t.root = ground (arith, d.root) in
    let new_left : v.left z ≡ y = ground (arith, d.left z) in
    (
      e,
      rw d.sentinel n,
      new_left,
      rw same_right (
          IsTree-frame t v z (t.right z) r tree (record {
            left = λ a i. ground (arith, d.left a, apart a);
            right = λ a i. ground (arith, d.right a, apart a);
            parent = λ a i. ground (arith, d.parent a, apart a);
            sentinel = d.sentinel;
          })),
      rw same_parent (
          IsContext-frame t v top z (t.parent z) k rest (record {
            left = λ a i. ground (arith, d.left a, apart a);
            right = λ a i. ground (arith, d.right a, apart a);
            parent = λ a i. ground (arith, d.parent a, apart a);
            sentinel = d.sentinel;
            root = same_root;
          })),
    )
moved-IsContext t v top x y q sh (on_right l z ∷ k) d c u real mx my mz apart =
    let (e, n, b, tree, rest) = c in
    let (zl, zk, uk) = u in
    let below : (x == t.root) ≡ false =
      ground (arith, root-above t top x q (on_right l z) k c, apart t.root) in
    let out = apart z (ground arith) in
    let far : (x == t.left z) ≡ false =
      ground (arith, root-member t z (t.left z) l tree, apart (t.left z)) in
    let same_left : v.left z ≡ t.left z = ground (arith, d.left z) in
    let same_parent : v.parent z ≡ t.parent z = ground (arith, d.parent z) in
    let same_root : v.root ≡ t.root = ground (arith, d.root) in
    let new_right : v.right z ≡ y = ground (arith, d.right z) in
    (
      e,
      rw d.sentinel n,
      new_right,
      rw same_left (
          IsTree-frame t v z (t.left z) l tree (record {
            left = λ a i. ground (arith, d.left a, apart a);
            right = λ a i. ground (arith, d.right a, apart a);
            parent = λ a i. ground (arith, d.parent a, apart a);
            sentinel = d.sentinel;
          })),
      rw same_parent (
          IsContext-frame t v top z (t.parent z) k rest (record {
            left = λ a i. ground (arith, d.left a, apart a);
            right = λ a i. ground (arith, d.right a, apart a);
            parent = λ a i. ground (arith, d.parent a, apart a);
            sentinel = d.sentinel;
            root = same_root;
          })),
    )

-- In a tree of unique nodes, of which the parent of the root is none, `rbtree_left_rotate` at any
-- node whose right child is a node turns the subtree (a x (b y c)) into ((a x b) y c) and keeps all
-- else of the tree, the root pointer and the links to the parents included: the nodes keep their
-- order.
pub left_rotate-IsTree :
    (t : Rbtree) (top x y q : Ptr) (a b c : Shape) (k : List Frame)
    → IsTree t q x (fork a x (fork b y c))
    → IsContext t top x q k
    → Unique (fork a x (fork b y c))
    → UniqueAbove k
    → ((d : Ptr) → above d k ≡ true → member d (fork a x (fork b y c)) ≡ false)
    → member top (fork a x (fork b y c)) ≡ false
    → IsTree (rbtree_left_rotate t x) q y (fork (fork a x b) y c)
      × IsContext (rbtree_left_rotate t x) top y q k
      × (nodes (plug k (fork (fork a x b) y c)) ≡ nodes (plug k (fork a x (fork b y c))))
left_rotate-IsTree t top x y q a b c k tree ctx u uk apart no_top =
    let (_, x_real, x_parent, a_tree, (x_right, y_real, y_parent, b_tree, c_tree)) = tree in
    let (x_a, x_byc, a_byc, a_unique, (y_b, y_c, b_c, b_unique, c_unique)) = u in
    let start = parent-above t top x q k ctx in
    let q_out : member q (fork a x (fork b y c)) ≡ false = ground (arith, apart q) in
    let mid = root-member t y (t.left y) b b_tree in
    let mid_a = a_byc (t.left y) in
    let mid_c = b_c (t.left y) in
    let y_a : member y a ≡ false = ground (arith, a_byc y) in
    let d : Rotated t (rbtree_left_rotate t x) x y q =
      left_rotate-Rotated t x y q x_right x_parent (ground arith) (ground arith)
        (ground (arith, mid)) in
    let v = rbtree_left_rotate t x in
    let v_left : v.left x ≡ t.left x = ground (arith, d.left x) in
    let v_mid : v.right x ≡ t.left y = ground (arith, d.right x) in
    let v_right : v.right y ≡ t.right y = ground (arith, d.right y) in
    let v_y : v.left y ≡ x = ground (arith, d.left y) in
    let y_x : (x == y) ≡ false = ground arith in
    let to_y : v.parent x ≡ y = ground (arith, d.parent x) in
    let to_q : v.parent y ≡ q = ground (arith, d.parent y) in
    let a' =
      same-IsTree t v x y q (t.left x) a x d a_tree x_a y_a (λ o. ground arith)
        (λ o. ground (arith, mid)) in
    let b' = moved-IsTree t v x y q b d b_tree b_unique (ground arith) y_b (λ o. ground arith) in
    let c' =
      same-IsTree t v x y q (t.right y) c y d c_tree (ground arith) y_c (λ o. ground arith)
        (λ o. ground (arith, mid)) in
    (
      (
        refl,
        rw d.sentinel y_real,
        to_q,
        (v_y, rw d.sentinel x_real, to_y, rw v_left a', rw v_mid b'),
        rw v_right c',
      ),
      moved-IsContext t v top x y q (fork a x (fork b y c)) k d ctx uk x_real (ground arith)
          (ground arith) (λ o. ground (arith, mid)) apart,
      nodes-plug k (fork (fork a x b) y c) (fork a x (fork b y c))
          (append_assoc (nodes a) (x ∷ nodes b) (y ∷ nodes c)),
    )
