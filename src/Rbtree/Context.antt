-- ===== src/Rbtree/Context.antt =====
-- The tree around a subtree: the way from the subtree up to the root.
use libcn.Prelude.{◌≡◌, Ptr, Bool, true, false, List, [], ◌∷◌, arith, ◌==◌, ◌||◌, ◌∙◌, ap, ◌++◌}
use package.libcn.Rbtree.{Rbtree}
use package.libcn.Rbtree.Shape.{Shape, fork, nodes, member, IsTree, IsTree-frame}

-- A node above the subtree, which hangs to its left or to its right, and the node's other subtree.
pub data Frame : Type 0 where
  on_left : Ptr → Shape → Frame
  on_right : Shape → Ptr → Frame

-- The whole tree.
abbrev pub plug : List Frame → Shape → Shape
plug [] sh = sh
plug (on_left x r ∷ k) sh = plug k (fork sh x r)
plug (on_right l x ∷ k) sh = plug k (fork l x sh)

abbrev pub above : Ptr → List Frame → Bool
above a [] = false
above a (on_left x r ∷ k) = a == x || (member a r || above a k)
above a (on_right l x ∷ k) = a == x || (member a l || above a k)

-- No node stands twice above the subtree.
abbrev pub UniqueAbove : List Frame → Type 0
UniqueAbove [] = Unit
UniqueAbove (on_left x r ∷ k) = (member x r ≡ false) × (above x k ≡ false) × UniqueAbove k
UniqueAbove (on_right l x ∷ k) = (member x l ≡ false) × (above x k ≡ false) × UniqueAbove k

-- `p` is the link to the subtree, from the node `q` or, where `q` is the parent `top` of the root, from
-- the root pointer.
abbrev pub IsContext : Rbtree → (top p q : Ptr) → List Frame → Type 0
IsContext t top p q [] = (t.root ≡ p) × (q ≡ top)
IsContext t top p q (on_left x r ∷ k) =
    (q ≡ x)
    × ((x == t.sentinel) ≡ false)
    × (t.left x ≡ p)
    × IsTree t x (t.right x) r
    × IsContext t top x (t.parent x) k
IsContext t top p q (on_right l x ∷ k) =
    (q ≡ x)
    × ((x == t.sentinel) ≡ false)
    × (t.right x ≡ p)
    × IsTree t x (t.left x) l
    × IsContext t top x (t.parent x) k

-- The links of all nodes above, and the root, are the same.
pub record SameAbove (t v : Rbtree) (k : List Frame) : Type 0 where
  pub left : (a : Ptr) → above a k ≡ true → v.left a ≡ t.left a
  pub right : (a : Ptr) → above a k ≡ true → v.right a ≡ t.right a
  pub parent : (a : Ptr) → above a k ≡ true → v.parent a ≡ t.parent a
  pub sentinel : v.sentinel ≡ t.sentinel
  pub root : v.root ≡ t.root

pub IsContext-frame :
    (t v : Rbtree) (top p q : Ptr) (k : List Frame)
    → IsContext t top p q k
    → SameAbove t v k
    → IsContext v top p q k
IsContext-frame t v top p q [] (e, f) s = (s.root ∙ e, f)
IsContext-frame t v top p q (on_left x r ∷ k) (e, n, l, tree, c) s = (
  e,
  rw s.sentinel n,
  s.left x (ground arith) ∙ l,
  rw (s.right x (ground arith)) (
      IsTree-frame t v x (t.right x) r tree (record {
        left = λ a i. s.left a (ground arith);
        right = λ a i. s.right a (ground arith);
        parent = λ a i. s.parent a (ground arith);
        sentinel = s.sentinel;
      })),
  rw (s.parent x (ground arith)) (
      IsContext-frame t v top x (t.parent x) k c (record {
        left = λ a i. s.left a (ground arith);
        right = λ a i. s.right a (ground arith);
        parent = λ a i. s.parent a (ground arith);
        sentinel = s.sentinel;
        root = s.root;
      })),
)
IsContext-frame t v top p q (on_right l x ∷ k) (e, n, b, tree, c) s = (
  e,
  rw s.sentinel n,
  s.right x (ground arith) ∙ b,
  rw (s.left x (ground arith)) (
      IsTree-frame t v x (t.left x) l tree (record {
        left = λ a i. s.left a (ground arith);
        right = λ a i. s.right a (ground arith);
        parent = λ a i. s.parent a (ground arith);
        sentinel = s.sentinel;
      })),
  rw (s.parent x (ground arith)) (
      IsContext-frame t v top x (t.parent x) k c (record {
        left = λ a i. s.left a (ground arith);
        right = λ a i. s.right a (ground arith);
        parent = λ a i. s.parent a (ground arith);
        sentinel = s.sentinel;
        root = s.root;
      })),
)

-- The node from which a context that is not empty starts is above, and so is the root.
pub root-above :
    (t : Rbtree) (top p q : Ptr) (f : Frame) (k : List Frame)
    → IsContext t top p q (f ∷ k)
    → above t.root (f ∷ k) ≡ true
root-above t top p q (on_left x r) [] (e, n, l, tree, c) = ground arith
root-above t top p q (on_right l x) [] (e, n, b, tree, c) = ground arith
root-above t top p q (on_left x r) (g ∷ k) (e, n, l, tree, c) =
    ground (arith, root-above t top x (t.parent x) g k c)
root-above t top p q (on_right l x) (g ∷ k) (e, n, b, tree, c) =
    ground (arith, root-above t top x (t.parent x) g k c)

-- The node from which a context starts is above, or is the parent of the root.
pub parent-above :
    (t : Rbtree) (top p q : Ptr) (k : List Frame)
    → IsContext t top p q k
    → ((q == top) || above q k) ≡ true
parent-above t top p q [] (e, f) = ground arith
parent-above t top p q (on_left x r ∷ k) (e, n, l, tree, c) = ground arith
parent-above t top p q (on_right l x ∷ k) (e, n, b, tree, c) = ground arith

pub nodes-plug :
    (k : List Frame) (s s' : Shape) → nodes s ≡ nodes s' → nodes (plug k s) ≡ nodes (plug k s')
nodes-plug [] s s' e = e
nodes-plug (on_left x r ∷ k) s s' e =
    nodes-plug k (fork s x r) (fork s' x r) (ap (λ zs. zs ++ x ∷ nodes r) e)
nodes-plug (on_right l x ∷ k) s s' e =
    nodes-plug k (fork l x s) (fork l x s') (ap (λ zs. nodes l ++ x ∷ zs) e)
