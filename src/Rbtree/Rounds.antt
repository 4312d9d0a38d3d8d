-- ===== src/Rbtree/Rounds.antt =====
-- The rounds of the loop of `rbtree_insert`, by their cases.
use libcn.Prelude.{◌≡◌, Ptr, true, false, arith, ◌==◌}
use package.libcn.Rbtree.{
  Rbtree, rbtree_left_rotate, rbtree_right_rotate, insert_fix_left, insert_fix_right,
}
use package.libcn.Rbtree.Fixing.{repaint}
use package.libcn.Rbtree.Finish.{settle}

module _ (t : Rbtree) (x z w : Ptr) (up : t.parent x ≡ z) (upper : t.parent z ≡ w) where
  pub insert_fix_left-repaint :
      (u : Ptr)
      → t.right w ≡ u
      → t.red u ≡ true
      → insert_fix_left t x ≡ (record t { red = repaint t.red z u w }, w)
  unfolding insert_fix_left
  insert_fix_left-repaint u e red_u = ground arith

  pub insert_fix_left-outer :
      t.red (t.right w) ≡ false
      → (x == t.right z) ≡ false
      → insert_fix_left t x ≡ (rbtree_right_rotate (record t { red = settle t.red z w }) w, x)
  unfolding insert_fix_left
  insert_fix_left-outer black far = ground arith

  pub insert_fix_left-inner :
      t.red (t.right w) ≡ false
      → (x == t.right z) ≡ true
      → (rbtree_left_rotate t z).parent z ≡ x
      → (rbtree_left_rotate t z).parent x ≡ w
      → (let t1 = rbtree_left_rotate t z in
          insert_fix_left t x ≡ (rbtree_right_rotate (record t1 { red = settle t1.red x w }) w, z))
  unfolding insert_fix_left
  insert_fix_left-inner black near back top = ground arith

  pub insert_fix_right-repaint :
      (u : Ptr)
      → t.left w ≡ u
      → t.red u ≡ true
      → insert_fix_right t x ≡ (record t { red = repaint t.red z u w }, w)
  unfolding insert_fix_right
  insert_fix_right-repaint u e red_u = ground arith

  pub insert_fix_right-outer :
      t.red (t.left w) ≡ false
      → (x == t.left z) ≡ false
      → insert_fix_right t x ≡ (rbtree_left_rotate (record t { red = settle t.red z w }) w, x)
  unfolding insert_fix_right
  insert_fix_right-outer black far = ground arith

  pub insert_fix_right-inner :
      t.red (t.left w) ≡ false
      → (x == t.left z) ≡ true
      → (rbtree_right_rotate t z).parent z ≡ x
      → (rbtree_right_rotate t z).parent x ≡ w
      → (let t1 = rbtree_right_rotate t z in
          insert_fix_right t x ≡ (rbtree_left_rotate (record t1 { red = settle t1.red x w }) w, z))
  unfolding insert_fix_right
  insert_fix_right-inner black near back top = ground arith
