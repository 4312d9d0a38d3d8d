-- ===== src/Rbtree.antt =====
-- rbtree.h and rbtree.c: red-black trees of nodes with parent links, over a memory of nodes.
pub mod Delete
mod Shape
mod Attach
mod Insert
mod Search
mod Context
mod Relink
mod Rotate
mod Mirror
mod Zip
mod Colour
mod Fixing
mod Turn
mod Finish
mod Rounds
mod Balance
mod Left
mod Right
mod Loop
mod Way
mod Ascending
mod Height
pub mod RedBlack
mod Whole
mod Tests
use libcn.Prelude.{
  ℕ, zero, suc, Ptr, null, Bool, true, false, Option, none, some, ◌==◌, if◌then◌else◌, write, not,
  ◌&&◌,
}

-- `rbtree_node_t` at every address, and the tree: its root and its sentinel.
pub record Rbtree : Type 0 where
  pub key : Ptr → ℕ
  pub left : Ptr → Ptr
  pub right : Ptr → Ptr
  pub parent : Ptr → Ptr
  pub red : Ptr → Bool
  pub root : Ptr
  pub sentinel : Ptr

abbrev pub set_left : Rbtree → Ptr → Ptr → Rbtree
set_left t n v = record t { left = write t.left n v }

abbrev pub set_right : Rbtree → Ptr → Ptr → Rbtree
set_right t n v = record t { right = write t.right n v }

abbrev pub set_parent : Rbtree → Ptr → Ptr → Rbtree
set_parent t n v = record t { parent = write t.parent n v }

abbrev pub set_key : Rbtree → Ptr → ℕ → Rbtree
set_key t n v = record t { key = write t.key n v }

abbrev pub rbt_red : Rbtree → Ptr → Rbtree
rbt_red t n = record t { red = write t.red n true }

abbrev pub rbt_black : Rbtree → Ptr → Rbtree
rbt_black t n = record t { red = write t.red n false }

abbrev pub rbt_copy_color : Rbtree → Ptr → Ptr → Rbtree
rbt_copy_color t n m = record t { red = write t.red n (t.red m) }

abbrev pub set_root : Rbtree → Ptr → Rbtree
set_root t n = record t { root = n }

unfoldable pub rbtree_init : Rbtree → Ptr → Rbtree
rbtree_init t s = record (rbt_black t s) { root = s; sentinel = s }

-- The `while` of `rbtree_min`; `none` when the fuel runs out.
unfoldable pub rbtree_min : ℕ → Rbtree → Ptr → Option Ptr
rbtree_min zero t node = none
rbtree_min (suc k) t node =
    let rest = rbtree_min k t (t.left node) in if t.left node == t.sentinel then some node else rest

-- The right child of `node` takes its place, and `node` becomes its left child.
unfoldable pub rbtree_left_rotate : Rbtree → Ptr → Rbtree
rbtree_left_rotate t node =
    let temp = t.right node in
    let t1 = set_right t node (t.left temp) in
    let t2 = if t1.left temp == t1.sentinel then t1 else set_parent t1 (t1.left temp) node in
    let t3 = set_parent t2 temp (t2.parent node) in
    let t4 =
      if node == t3.root
      then set_root t3 temp
      else if node == t3.left (t3.parent node)
      then set_left t3 (t3.parent node) temp
      else set_right t3 (t3.parent node) temp in
    set_parent (set_left t4 temp node) node temp

unfoldable pub rbtree_right_rotate : Rbtree → Ptr → Rbtree
rbtree_right_rotate t node =
    let temp = t.left node in
    let t1 = set_left t node (t.right temp) in
    let t2 = if t1.right temp == t1.sentinel then t1 else set_parent t1 (t1.right temp) node in
    let t3 = set_parent t2 temp (t2.parent node) in
    let t4 =
      if node == t3.root
      then set_root t3 temp
      else if node == t3.right (t3.parent node)
      then set_right t3 (t3.parent node) temp
      else set_left t3 (t3.parent node) temp in
    set_parent (set_right t4 temp node) node temp

-- `rbtree_insert_value` and `rbtree_insert_timer_value`, which differ in the comparison of the new
-- key with the one at hand.
unfoldable pub insert_value : ℕ → (ℕ → ℕ → Bool) → Rbtree → Ptr → Ptr → Option Rbtree
insert_value zero less t temp node = none
insert_value (suc k) less t temp node =
    let below = less (t.key node) (t.key temp) in
    let p = if below then t.left temp else t.right temp in
    let rest = insert_value k less t p node in
    if p == t.sentinel
    then (let t1 = if below then set_left t temp node else set_right t temp node in
        let t2 = set_parent t1 node temp in
        let t3 = set_left t2 node t.sentinel in some (rbt_red (set_right t3 node t.sentinel) node))
    else rest

-- A round of the loop of `rbtree_insert` where the parent is a left child, then where it is a right
-- child: the tree and the next `node`.
unfoldable pub insert_fix_left : Rbtree → Ptr → Rbtree × Ptr
insert_fix_left t node =
    let grand = t.parent (t.parent node) in
    let temp = t.right grand in
    if t.red temp
    then (rbt_red (rbt_black (rbt_black t (t.parent node)) temp) grand, grand)
    else (let (t1, n) : Rbtree × Ptr =
          if node == t.right (t.parent node)
          then (rbtree_left_rotate t (t.parent node), t.parent node)
          else (t, node) in
        let t2 = rbt_black t1 (t1.parent n) in
        let t3 = rbt_red t2 (t2.parent (t2.parent n)) in
        (rbtree_right_rotate t3 (t3.parent (t3.parent n)), n))

unfoldable pub insert_fix_right : Rbtree → Ptr → Rbtree × Ptr
insert_fix_right t node =
    let grand = t.parent (t.parent node) in
    let temp = t.left grand in
    if t.red temp
    then (rbt_red (rbt_black (rbt_black t (t.parent node)) temp) grand, grand)
    else (let (t1, n) : Rbtree × Ptr =
          if node == t.left (t.parent node)
          then (rbtree_right_rotate t (t.parent node), t.parent node)
          else (t, node) in
        let t2 = rbt_black t1 (t1.parent n) in
        let t3 = rbt_red t2 (t2.parent (t2.parent n)) in
        (rbtree_left_rotate t3 (t3.parent (t3.parent n)), n))

-- The `while` of `rbtree_insert`.
unfoldable pub insert_fix : ℕ → Rbtree → Ptr → Option Rbtree
insert_fix zero t node = none
insert_fix (suc k) t node = elim (not (node == t.root) && t.red (t.parent node)) [
  | false ↦ some t
  | true ↦ elim (t.parent node == t.left (t.parent (t.parent node))) [
    | true ↦ insert_fix k (insert_fix_left t node).0 (insert_fix_left t node).1
    | false ↦ insert_fix k (insert_fix_right t node).0 (insert_fix_right t node).1
  ]
]

unfoldable pub rbtree_insert : ℕ → (ℕ → ℕ → Bool) → Rbtree → Ptr → Option Rbtree
rbtree_insert fuel less t node =
    if t.root == t.sentinel
    then (let t1 = set_parent t node null in
        let t2 = set_right (set_left t1 node t.sentinel) node t.sentinel in
        some (set_root (rbt_black t2 node) node))
    else elim (insert_value fuel less t t.root node) [
      | none ↦ none
      | some t1 ↦ elim (insert_fix fuel t1 node) [
        | none ↦ none
        | some t2 ↦ some (rbt_black t2 t2.root)
      ]
    ]

-- The `for (;;)` of `rbtree_next`: up to the first ancestor of which `node` is a left descendant;
-- `none` when the fuel runs out, `null` when there is no next node.
unfoldable pub next_up : ℕ → Rbtree → Ptr → Option Ptr
next_up zero t node = none
next_up (suc k) t node =
    let parent = t.parent node in
    let rest = next_up k t parent in
    if node == t.root then some null else if node == t.left parent then some parent else rest

unfoldable pub rbtree_next : ℕ → Rbtree → Ptr → Option Ptr
rbtree_next fuel t node =
    if t.right node == t.sentinel then next_up fuel t node else rbtree_min fuel t (t.right node)
