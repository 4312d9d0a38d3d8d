-- ===== src/Rbtree/Relink.antt =====
-- What a rotation writes, and the subtrees that it moves.
use libcn.Prelude.{◌≡◌, Ptr, true, false, arith, not, ◌==◌, ◌&&◌, if◌then◌else◌, sym, ◌∙◌}
use package.libcn.Rbtree.{Rbtree, rbtree_left_rotate}
use package.libcn.Rbtree.Shape.{Shape, leaf, fork, member, Unique, IsTree, IsTree-frame}

-- What `rbtree_left_rotate` writes at `x`, whose right child is `y` and whose parent is `q`.
pub record Rotated (t v : Rbtree) (x y q : Ptr) : Type 0 where
  pub left :
      (a : Ptr)
      → v.left a ≡ (
          if a == y
          then x
          else if not (x == t.root) && (a == q && (x == t.left q))
          then y
          else t.left a)
  pub right :
      (a : Ptr)
      → v.right a ≡ (
          if not (x == t.root) && (a == q && not (x == t.left q))
          then y
          else if a == x
          then t.left y
          else t.right a)
  pub parent :
      (a : Ptr)
      → v.parent a ≡ (
          if a == x
          then y
          else if a == y
          then q
          else if a == t.left y && not (t.left y == t.sentinel)
          then x
          else t.parent a)
  pub root : v.root ≡ (if x == t.root then y else t.root)
  pub sentinel : v.sentinel ≡ t.sentinel

pub left_rotate-Rotated :
    (t : Rbtree) (x y q : Ptr)
    → t.right x ≡ y
    → t.parent x ≡ q
    → (x == y) ≡ false
    → (q == x) ≡ false
    → (x == t.left y) ≡ false
    → Rotated t (rbtree_left_rotate t x) x y q
unfolding rbtree_left_rotate
left_rotate-Rotated t x y q e f n m o = record {
  left = λ a. ground arith;
  right = λ a. ground arith;
  parent = λ a. ground arith;
  root = ground arith;
  sentinel = ground arith;
}

pub root-member :
    (t : Rbtree) (q p : Ptr) (sh : Shape)
    → IsTree t q p sh
    → (p == t.sentinel) ≡ false
    → member p sh ≡ true
root-member t q p leaf e n = absurd (ground arith)
root-member t q p (fork l x r) (e, _, _, _, _) n = ground arith

-- A tree of which no link changes, below a node whose parent may have.
pub same-IsTree :
    (t v : Rbtree) (x y q p : Ptr) (sh : Shape) (q' : Ptr)
    → Rotated t v x y q
    → IsTree t q' p sh
    → member x sh ≡ false
    → member y sh ≡ false
    → ((x == t.root) ≡ false → member q sh ≡ false)
    → ((t.left y == t.sentinel) ≡ false → member (t.left y) sh ≡ false)
    → IsTree v q' p sh
same-IsTree t v x y q p sh q' d tree nx ny nq nz = IsTree-frame t v q' p sh tree (record {
  left = λ a i. ground (arith, d.left a);
  right = λ a i. ground (arith, d.right a);
  parent = λ a i. ground (arith, d.parent a);
  sentinel = d.sentinel;
})

-- The middle subtree, which changes its parent.
pub moved-IsTree :
    (t v : Rbtree) (x y q : Ptr) (b : Shape)
    → Rotated t v x y q
    → IsTree t y (t.left y) b
    → Unique b
    → member x b ≡ false
    → member y b ≡ false
    → ((x == t.root) ≡ false → member q b ≡ false)
    → IsTree v x (t.left y) b
moved-IsTree t v x y q leaf d e u nx ny nq = e ∙ sym d.sentinel
moved-IsTree t v x y q (fork l z r) d (e, n, f, lt, rt) (zl, zr, apart, ul, ur) nx ny nq = (
  e,
  rw d.sentinel n,
  ground (arith, d.parent z),
  rw (same_left) (
      same-IsTree t v x y q (t.left z) l z d lt (ground arith) (ground arith) (λ o. ground arith)
        (λ o. ground arith)),
  rw (same_right) (
      same-IsTree t v x y q (t.right z) r z d rt (ground arith) (ground arith) (λ o. ground arith)
        (λ o. ground arith)),
)
  where
    same_left : v.left z ≡ t.left z
    same_left = ground (arith, d.left z)

    same_right : v.right z ≡ t.right z
    same_right = ground (arith, d.right z)
