-- ===== src/Rbtree/Tests.antt =====
-- A tree of the nodes 5, 10 and 20, with their addresses as keys and the sentinel at 1.
use libcn.Prelude.{
  ◌≡◌, refl, Ptr, false, some, List, [], ◌∷◌, ◌≤◌, has, true, arith, ◌==◌, ◌||◌, if◌then◌else◌, ltb,
}
use package.libcn.Rbtree.{
  Rbtree, rbtree_min, rbtree_left_rotate, rbtree_right_rotate, rbtree_insert,
}
use package.libcn.Rbtree.Shape.{Shape, leaf, fork, nodes, Unique, IsTree}
use package.libcn.Rbtree.Insert.{grow}
use package.libcn.Rbtree.Search.{Search}
use package.libcn.Rbtree.RedBlack.{RedBlack}
use package.libcn.Rbtree.Ascending.{Ascending}
use package.libcn.Rbtree.Whole.{rbtree_insert-RedBlack, rbtree_insert-Ascending, rbtree_min-least}
use package.libcn.Rbtree.Context.{Frame, plug, IsContext}
use package.libcn.Rbtree.Rotate.{left_rotate-IsTree}
use package.libcn.Rbtree.Mirror.{right_rotate-IsTree}

abbrev tree : Rbtree
tree = record {
  key = λ a. a;
  left = λ a. if a == 10 then 5 else 1;
  right = λ a. if a == 10 then 20 else 1;
  parent = λ a. if a == 5 then 10 else if a == 20 then 10 else 0;
  red = λ a. false;
  root = 10;
  sentinel = 1;
}

abbrev low : Shape
low = fork leaf 5 leaf

abbrev high : Shape
high = fork leaf 20 leaf

tree-IsTree : IsTree tree 0 10 (fork low 10 high)
tree-IsTree = (refl, refl, refl, (refl, refl, refl, refl, refl), (refl, refl, refl, refl, refl))

tree-Unique : Unique (fork low 10 high)
tree-Unique = (
  refl,
  refl,
  λ a i. ground arith,
  (refl, refl, λ a i. ground arith, tt, tt),
  (refl, refl, λ a i. ground arith, tt, tt),
)

tree-Search : Search tree.key (fork low 10 high)
tree-Search = (
  λ a i. ground arith,
  λ a i. ground arith,
  (λ a i. ground arith, λ a i. ground arith, tt, tt),
  (λ a i. ground arith, λ a i. ground arith, tt, tt),
)

tree-RedBlack : RedBlack tree (5 ∷ 10 ∷ 20 ∷ [])
tree-RedBlack = record {
  shape = fork low 10 high;
  blacks = 2;
  tree = tree-IsTree;
  order = refl;
  distinct = (refl, (refl, (refl, tt)));
  no_null = refl;
  balanced = (
    1,
    refl,
    (0, refl, refl, refl, λ i. absurd (ground arith)),
    (0, refl, refl, refl, λ i. absurd (ground arith)),
    λ i. absurd (ground arith),
  );
  root_black = refl;
  sentinel = refl;
}

tree-Ascending : Ascending tree.key (5 ∷ 10 ∷ 20 ∷ [])
tree-Ascending = (λ a i. ground arith, (λ a i. ground arith, (λ a i. ground arith, tt)))

rbtree_min-least_example :
    (x : Ptr) × (rbtree_min 5 tree 10 ≡ some x)
    × (has x (5 ∷ 10 ∷ 20 ∷ []) ≡ true)
    × ((a : Ptr) → has a (5 ∷ 10 ∷ 20 ∷ []) ≡ true → tree.key x ≤ tree.key a)
rbtree_min-least_example =
    rbtree_min-least 5 tree (5 ∷ 10 ∷ 20 ∷ []) tree-RedBlack tree-Ascending refl (omega arith)

rbtree_insert-RedBlack_example :
    (v : Rbtree) × (rbtree_insert 3 ltb tree 7 ≡ some v)
    × RedBlack v (nodes (grow ltb tree.key 7 (fork low 10 high)))
    × (v.key ≡ tree.key)
    × (v.sentinel ≡ tree.sentinel)
unfolding tree-RedBlack
rbtree_insert-RedBlack_example =
    rbtree_insert-RedBlack 3 ltb tree (5 ∷ 10 ∷ 20 ∷ []) 7 tree-RedBlack refl refl refl
      (omega arith)

rbtree_insert-Ascending_example :
    (v : Rbtree) × (ms : List Ptr) × (rbtree_insert 5 ltb tree 7 ≡ some v)
    × RedBlack v ms
    × Ascending v.key ms
    × ((a : Ptr) → has a ms ≡ ((a == 7) || has a (5 ∷ 10 ∷ 20 ∷ [])))
rbtree_insert-Ascending_example =
    rbtree_insert-Ascending 5 tree (5 ∷ 10 ∷ 20 ∷ []) 7 tree-RedBlack tree-Ascending refl refl refl
      (omega arith)

abbrev no_frames : List Frame
no_frames = []

left_rotate-IsTree_example :
    IsTree (rbtree_left_rotate tree 10) 0 20 (fork (fork low 10 leaf) 20 leaf)
    × IsContext (rbtree_left_rotate tree 10) 0 20 0 no_frames
    × (nodes (plug no_frames (fork (fork low 10 leaf) 20 leaf))
        ≡ nodes (plug no_frames (fork low 10 (fork leaf 20 leaf))))
left_rotate-IsTree_example =
    left_rotate-IsTree tree 0 10 20 0 low leaf leaf no_frames tree-IsTree (refl, refl) tree-Unique
      tt (λ d i. ground arith) refl

right_rotate-IsTree_example :
    IsTree (rbtree_right_rotate tree 10) 0 5 (fork leaf 5 (fork leaf 10 high))
    × IsContext (rbtree_right_rotate tree 10) 0 5 0 no_frames
    × (nodes (plug no_frames (fork leaf 5 (fork leaf 10 high)))
        ≡ nodes (plug no_frames (fork (fork leaf 5 leaf) 10 high)))
right_rotate-IsTree_example =
    right_rotate-IsTree tree 0 10 5 0 leaf leaf high no_frames tree-IsTree (refl, refl) tree-Unique
      tt (λ d i. ground arith) refl
