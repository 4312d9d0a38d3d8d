-- ===== src/Rbtree/Shape.antt =====
-- What the links of a tree stand for: a binary tree of nodes.
use libcn.Prelude.{
  ℕ, zero, suc, ◌<◌, ◌≡◌, refl, Ptr, Bool, true, false, some, List, [], ◌∷◌, ◌++◌, arith, ◌==◌,
  ◌||◌, max,
}
use package.libcn.Rbtree.{Rbtree, rbtree_min}

pub data Shape : Type 0 where
  leaf : Shape
  fork : Shape → Ptr → Shape → Shape

-- The nodes from left to right.
abbrev pub nodes : Shape → List Ptr
nodes leaf = []
nodes (fork l x r) = nodes l ++ x ∷ nodes r

abbrev pub member : Ptr → Shape → Bool
member a leaf = false
member a (fork l x r) = a == x || (member a l || member a r)

-- No node stands twice in the tree.
abbrev pub Unique : Shape → Type 0
Unique leaf = Unit
Unique (fork l x r) =
    (member x l ≡ false)
    × (member x r ≡ false)
    × ((a : Ptr) → member a l ≡ true → member a r ≡ false)
    × Unique l
    × Unique r

-- `p` is the link from the node `q` to a tree of this shape, whose parent links lead back.
abbrev pub IsTree : Rbtree → Ptr → Ptr → Shape → Type 0
IsTree t q p leaf = p ≡ t.sentinel
IsTree t q p (fork l x r) =
    (p ≡ x)
    × ((x == t.sentinel) ≡ false)
    × (t.parent x ≡ q)
    × IsTree t x (t.left x) l
    × IsTree t x (t.right x) r

-- The links of all nodes of a tree are the same.
pub record SameAt (t v : Rbtree) (sh : Shape) : Type 0 where
  pub left : (a : Ptr) → member a sh ≡ true → v.left a ≡ t.left a
  pub right : (a : Ptr) → member a sh ≡ true → v.right a ≡ t.right a
  pub parent : (a : Ptr) → member a sh ≡ true → v.parent a ≡ t.parent a
  pub sentinel : v.sentinel ≡ t.sentinel

SameAt-left : (t v : Rbtree) (l r : Shape) (x : Ptr) → SameAt t v (fork l x r) → SameAt t v l
SameAt-left t v l r x s = record {
  left = λ a i. s.left a (ground arith);
  right = λ a i. s.right a (ground arith);
  parent = λ a i. s.parent a (ground arith);
  sentinel = s.sentinel;
}

SameAt-right : (t v : Rbtree) (l r : Shape) (x : Ptr) → SameAt t v (fork l x r) → SameAt t v r
SameAt-right t v l r x s = record {
  left = λ a i. s.left a (ground arith);
  right = λ a i. s.right a (ground arith);
  parent = λ a i. s.parent a (ground arith);
  sentinel = s.sentinel;
}

pub IsTree-frame :
    (t v : Rbtree) (q p : Ptr) (sh : Shape) → IsTree t q p sh → SameAt t v sh → IsTree v q p sh
IsTree-frame t v q p leaf e s = rw s.sentinel e
IsTree-frame t v q p (fork l x r) (e, n, b, lt, rt) s = (
  e,
  rw s.sentinel n,
  rw (s.parent x (ground arith)) b,
  rw (s.left x (ground arith)) (IsTree-frame t v x (t.left x) l lt (SameAt-left t v l r x s)),
  rw (s.right x (ground arith)) (IsTree-frame t v x (t.right x) r rt (SameAt-right t v l r x s)),
)

abbrev pub height : Shape → ℕ
height leaf = 0
height (fork l x r) = suc (max (height l) (height r))

abbrev pub leftmost : Shape → Ptr → Ptr
leftmost leaf x = x
leftmost (fork l y r) x = leftmost l y

-- With fuel above the height, `rbtree_min` of a tree that is not empty returns its first node from
-- the left.
pub rbtree_min-leftmost :
    (fuel : ℕ) (t : Rbtree) (q p : Ptr) (l r : Shape) (x : Ptr)
    → IsTree t q p (fork l x r)
    → height l < fuel
    → rbtree_min fuel t p ≡ some (leftmost l x)
unfolding rbtree_min
rbtree_min-leftmost zero t q p l r x h lt = absurd (omega arith)
rbtree_min-leftmost (suc k) t q p leaf r x (e, n, b, lt, rt) less =
    let last : (t.left p == t.sentinel) ≡ true = ground arith in rw (last, e) refl
rbtree_min-leftmost (suc k) t q p (fork l' y r') r x (e, n, b, lt, rt) less =
    let (f, m, _, _, _) = lt in
    let more : (t.left p == t.sentinel) ≡ false = ground arith in
    rw (more, rbtree_min) (rw e (rbtree_min-leftmost k t x (t.left x) l' r' y lt (omega arith)))
