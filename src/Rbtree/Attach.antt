-- ===== src/Rbtree/Attach.antt =====
-- A new leaf below a node, and an insertion into a subtree as one into the tree.
use libcn.Prelude.{◌≡◌, refl, Ptr, true, false, arith, ◌==◌}
use package.libcn.Rbtree.{Rbtree, set_left, set_right, set_parent, rbt_red}
use package.libcn.Rbtree.Shape.{Shape, leaf, fork, member, Unique, IsTree, IsTree-frame}

-- From `t` to `v`, the tree of shape `sh` at the link `p` has become `sh'`, `node` is red, and no other
-- node's links, no key and no other colour have changed.
pub record Inserted (t v : Rbtree) (q p node : Ptr) (sh sh' : Shape) : Type 0 where
  pub tree : IsTree v q p sh'
  pub left : (a : Ptr) → (a == node) ≡ false → member a sh ≡ false → v.left a ≡ t.left a
  pub right : (a : Ptr) → (a == node) ≡ false → member a sh ≡ false → v.right a ≡ t.right a
  pub parent : (a : Ptr) → (a == node) ≡ false → v.parent a ≡ t.parent a
  pub red : v.red node ≡ true
  pub colours : (a : Ptr) → (a == node) ≡ false → v.red a ≡ t.red a
  pub sentinel : v.sentinel ≡ t.sentinel
  pub root : v.root ≡ t.root
  pub key : v.key ≡ t.key

-- The new leaf below `x`.
abbrev pub attach : Rbtree → Ptr → Ptr → Rbtree
attach t x node =
    let t2 = set_parent t node x in
    let t3 = set_left t2 node t.sentinel in rbt_red (set_right t3 node t.sentinel) node

pub attach_left :
    (t : Rbtree) (q p x node : Ptr) (r : Shape)
    → IsTree t q p (fork leaf x r)
    → Unique (fork leaf x r)
    → member node (fork leaf x r) ≡ false
    → (node == t.sentinel) ≡ false
    → Inserted t
        (attach (set_left t x node) x node)
        q
        p
        node
        (fork leaf x r)
        (fork (fork leaf node leaf) x r)
attach_left t q p x node r (e, n, b, lt, rt) u out real = record {
  tree = (
    e,
    n,
    ground arith,
    (ground arith, real, ground arith, ground arith, ground arith),
    rw (right_link) (
        IsTree-frame t (attach (set_left t x node) x node) x (t.right x) r rt (record {
          left = λ a i. ground arith;
          right = λ a i. ground arith;
          parent = λ a i. ground arith;
          sentinel = refl;
        })),
  );
  left = λ a o m. ground arith;
  right = λ a o m. ground arith;
  parent = λ a o. ground arith;
  red = ground arith;
  colours = λ a o. ground arith;
  sentinel = refl;
  root = refl;
  key = refl;
}
  where
    right_link : (attach (set_left t x node) x node).right x ≡ t.right x
    right_link = ground arith

pub attach_right :
    (t : Rbtree) (q p x node : Ptr) (l : Shape)
    → IsTree t q p (fork l x leaf)
    → Unique (fork l x leaf)
    → member node (fork l x leaf) ≡ false
    → (node == t.sentinel) ≡ false
    → Inserted t
        (attach (set_right t x node) x node)
        q
        p
        node
        (fork l x leaf)
        (fork l x (fork leaf node leaf))
attach_right t q p x node l (e, n, b, lt, rt) u out real = record {
  tree = (
    e,
    n,
    ground arith,
    rw (left_link) (
        IsTree-frame t (attach (set_right t x node) x node) x (t.left x) l lt (record {
          left = λ a i. ground arith;
          right = λ a i. ground arith;
          parent = λ a i. ground arith;
          sentinel = refl;
        })),
    (ground arith, real, ground arith, ground arith, ground arith),
  );
  left = λ a o m. ground arith;
  right = λ a o m. ground arith;
  parent = λ a o. ground arith;
  red = ground arith;
  colours = λ a o. ground arith;
  sentinel = refl;
  root = refl;
  key = refl;
}
  where
    left_link : (attach (set_right t x node) x node).left x ≡ t.left x
    left_link = ground arith

-- An insertion into a subtree is one into the tree.
pub lift_left :
    (t v : Rbtree) (q p x node : Ptr) (l l' r : Shape)
    → IsTree t q p (fork l x r)
    → Unique (fork l x r)
    → member node (fork l x r) ≡ false
    → Inserted t v x (t.left x) node l l'
    → Inserted t v q p node (fork l x r) (fork l' x r)
lift_left t v q p x node l l' r (e, n, b, lt, rt) u out ih = record {
  tree = (
    e,
    rw ih.sentinel n,
    ground (arith, ih.parent x),
    rw (ih.left x (ground arith) (ground arith)) ih.tree,
    rw (ih.right x (ground arith) (ground arith)) (
        IsTree-frame t v x (t.right x) r rt (record {
          left = λ a i. ih.left a (ground arith) (ground (arith, u.2 a));
          right = λ a i. ih.right a (ground arith) (ground (arith, u.2 a));
          parent = λ a i. ih.parent a (ground arith);
          sentinel = ih.sentinel;
        })),
  );
  left = λ a o m. ih.left a o (ground arith);
  right = λ a o m. ih.right a o (ground arith);
  parent = ih.parent;
  red = ih.red;
  colours = ih.colours;
  sentinel = ih.sentinel;
  root = ih.root;
  key = ih.key;
}

pub lift_right :
    (t v : Rbtree) (q p x node : Ptr) (l r r' : Shape)
    → IsTree t q p (fork l x r)
    → Unique (fork l x r)
    → member node (fork l x r) ≡ false
    → Inserted t v x (t.right x) node r r'
    → Inserted t v q p node (fork l x r) (fork l x r')
lift_right t v q p x node l r r' (e, n, b, lt, rt) u out ih = record {
  tree = (
    e,
    rw ih.sentinel n,
    ground (arith, ih.parent x),
    rw (ih.left x (ground arith) (ground arith)) (
        IsTree-frame t v x (t.left x) l lt (record {
          left = λ a i. ih.left a (ground arith) (ground (arith, u.2 a));
          right = λ a i. ih.right a (ground arith) (ground (arith, u.2 a));
          parent = λ a i. ih.parent a (ground arith);
          sentinel = ih.sentinel;
        })),
    rw (ih.right x (ground arith) (ground arith)) ih.tree,
  );
  left = λ a o m. ih.left a o (ground arith);
  right = λ a o m. ih.right a o (ground arith);
  parent = ih.parent;
  red = ih.red;
  colours = ih.colours;
  sentinel = ih.sentinel;
  root = ih.root;
  key = ih.key;
}
