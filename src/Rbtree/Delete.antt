-- ===== src/Rbtree/Delete.antt =====
-- `rbtree_delete` of rbtree.c.
use libcn.Prelude.{
  ℕ, zero, suc, Ptr, null, true, false, Option, none, some, ◌==◌, if◌then◌else◌, not, ◌&&◌,
}
use package.libcn.Rbtree.{
  Rbtree, set_left, set_right, set_parent, set_key, rbt_red, rbt_black, rbt_copy_color, set_root,
  rbtree_min, rbtree_left_rotate, rbtree_right_rotate,
}

-- The choice of `subst`, the node that leaves its place, and `temp`, its child that takes it.
unfoldable pub choose : ℕ → Rbtree → Ptr → Option (Ptr × Ptr)
choose fuel t node =
    if t.left node == t.sentinel
    then some (node, t.right node)
    else if t.right node == t.sentinel
    then some (node, t.left node)
    else elim (rbtree_min fuel t (t.right node)) [
      | none ↦ none
      | some subst ↦
          some (subst, if t.left subst == t.sentinel then t.right subst else t.left subst)
    ]

-- `subst` leaves its place to `temp`.
abbrev pub unlink : Rbtree → Ptr → Ptr → Rbtree
unlink t subst temp =
    if subst == t.left (t.parent subst)
    then set_left t (t.parent subst) temp
    else set_right t (t.parent subst) temp

-- `subst` takes the place of `node`, with its links and its colour.
abbrev pub replace : Rbtree → Ptr → Ptr → Rbtree
replace t subst node =
    let t1 = set_left t subst (t.left node) in
    let t2 = set_right t1 subst (t1.right node) in
    let t3 = set_parent t2 subst (t2.parent node) in
    let t4 = rbt_copy_color t3 subst node in
    let t5 =
      if node == t4.root
      then set_root t4 subst
      else if node == t4.left (t4.parent node)
      then set_left t4 (t4.parent node) subst
      else set_right t4 (t4.parent node) subst in
    let t6 = if t5.left subst == t5.sentinel then t5 else set_parent t5 (t5.left subst) subst in
    if t6.right subst == t6.sentinel then t6 else set_parent t6 (t6.right subst) subst

abbrev pub clear : Rbtree → Ptr → Rbtree
clear t node = set_key (set_parent (set_right (set_left t node null) node null) node null) node 0

-- The rewiring of `rbtree_delete`, from after the test of the root to the fixup.
unfoldable pub detach : Rbtree → (node subst temp : Ptr) → Rbtree
detach t node subst temp =
    let t1 = unlink t subst temp in
    let t2 =
      if subst == node
      then set_parent t1 temp (t1.parent subst)
      else (let t3 =
            if t1.parent subst == node
            then set_parent t1 temp subst
            else set_parent t1 temp (t1.parent subst) in
          replace t3 subst node) in
    clear t2 node

-- A round of the fixup where `temp` is a left child, then where it is a right child: the tree and
-- the next `temp`.
unfoldable pub delete_fix_left : Rbtree → Ptr → Rbtree × Ptr
delete_fix_left t temp =
    let w0 = t.right (t.parent temp) in
    let t1 =
      if t.red w0
      then rbtree_left_rotate (rbt_red (rbt_black t w0) (t.parent temp)) (t.parent temp)
      else t in
    let w = if t.red w0 then t1.right (t1.parent temp) else w0 in
    if not (t1.red (t1.left w)) && not (t1.red (t1.right w))
    then (rbt_red t1 w, t1.parent temp)
    else (let outer_black = not (t1.red (t1.right w)) in
        let t2 =
          if outer_black
          then rbtree_right_rotate (rbt_red (rbt_black t1 (t1.left w)) w) w
          else t1 in
        let v = if outer_black then t2.right (t2.parent temp) else w in
        let t3 = rbt_copy_color t2 v (t2.parent temp) in
        let t4 = rbt_black (rbt_black t3 (t3.parent temp)) (t3.right v) in
        let t5 = rbtree_left_rotate t4 (t4.parent temp) in (t5, t5.root))

unfoldable pub delete_fix_right : Rbtree → Ptr → Rbtree × Ptr
delete_fix_right t temp =
    let w0 = t.left (t.parent temp) in
    let t1 =
      if t.red w0
      then rbtree_right_rotate (rbt_red (rbt_black t w0) (t.parent temp)) (t.parent temp)
      else t in
    let w = if t.red w0 then t1.left (t1.parent temp) else w0 in
    if not (t1.red (t1.left w)) && not (t1.red (t1.right w))
    then (rbt_red t1 w, t1.parent temp)
    else (let outer_black = not (t1.red (t1.left w)) in
        let t2 =
          if outer_black
          then rbtree_left_rotate (rbt_red (rbt_black t1 (t1.right w)) w) w
          else t1 in
        let v = if outer_black then t2.left (t2.parent temp) else w in
        let t3 = rbt_copy_color t2 v (t2.parent temp) in
        let t4 = rbt_black (rbt_black t3 (t3.parent temp)) (t3.left v) in
        let t5 = rbtree_right_rotate t4 (t4.parent temp) in (t5, t5.root))

-- The `while` of the fixup, and the blackening of `temp` behind it.
unfoldable pub delete_fix : ℕ → Rbtree → Ptr → Option Rbtree
delete_fix zero t temp = none
delete_fix (suc k) t temp = elim (not (temp == t.root) && not (t.red temp)) [
  | false ↦ some (rbt_black t temp)
  | true ↦ elim (temp == t.left (t.parent temp)) [
    | true ↦ delete_fix k (delete_fix_left t temp).0 (delete_fix_left t temp).1
    | false ↦ delete_fix k (delete_fix_right t temp).0 (delete_fix_right t temp).1
  ]
]

unfoldable pub rbtree_delete : ℕ → Rbtree → Ptr → Option Rbtree
rbtree_delete fuel t node = elim (choose fuel t node) [
  | none ↦ none
  | some (subst, temp) ↦
      if subst == t.root
      then some (clear (rbt_black (set_root t temp) temp) node)
      else (let t1 = detach t node subst temp in
          if t.red subst then some t1 else delete_fix fuel t1 temp)
]
