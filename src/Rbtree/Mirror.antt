-- ===== src/Rbtree/Mirror.antt =====
-- The right rotation is the left one in a mirror.
use mathlib.Core.List.{append_assoc}
use mathlib.Core.Path.{subst}
use libcn.Prelude.{◌≡◌, refl, Ptr, true, false, List, [], ◌∷◌, arith, sym, ◌∙◌}
use package.libcn.Rbtree.{Rbtree, rbtree_left_rotate, rbtree_right_rotate}
use package.libcn.Rbtree.Shape.{Shape, leaf, fork, nodes, member, Unique, IsTree}
use package.libcn.Rbtree.Context.{
  Frame, on_left, on_right, plug, above, UniqueAbove, IsContext, nodes-plug,
}
use package.libcn.Rbtree.Rotate.{left_rotate-IsTree}

abbrev mirror : Rbtree → Rbtree
mirror t = record t { left = t.right; right = t.left }

abbrev flip : Shape → Shape
flip leaf = leaf
flip (fork l x r) = fork (flip r) x (flip l)

abbrev flip_all : List Frame → List Frame
flip_all [] = []
flip_all (on_left x r ∷ k) = on_right (flip r) x ∷ flip_all k
flip_all (on_right l x ∷ k) = on_left x (flip l) ∷ flip_all k

mirror-right_rotate :
    (t : Rbtree) (x : Ptr) → mirror (rbtree_left_rotate (mirror t) x) ≡ rbtree_right_rotate t x
unfolding rbtree_left_rotate rbtree_right_rotate
mirror-right_rotate t x = ground arith

IsTree-flip :
    (t : Rbtree) (q p : Ptr) (sh : Shape) → IsTree t q p sh → IsTree (mirror t) q p (flip sh)
IsTree-flip t q p leaf e = e
IsTree-flip t q p (fork l x r) (e, n, f, lt, rt) =
    (e, n, f, IsTree-flip t x (t.right x) r rt, IsTree-flip t x (t.left x) l lt)

flip-flip : (sh : Shape) → flip (flip sh) ≡ sh
flip-flip leaf = refl
flip-flip (fork l x r) = rw (flip-flip l, flip-flip r) refl

member-flip : (a : Ptr) (sh : Shape) → member a (flip sh) ≡ member a sh
member-flip a leaf = refl
member-flip a (fork l x r) = ground (arith, member-flip a l, member-flip a r)

flip-Unique : (sh : Shape) → Unique sh → Unique (flip sh)
flip-Unique leaf u = tt
flip-Unique (fork l x r) (xl, xr, apart, ul, ur) = (
  rw (member-flip x r) xr,
  rw (member-flip x l) xl,
  λ a i. ground (arith, member-flip a l, member-flip a r, apart a),
  flip-Unique r ur,
  flip-Unique l ul,
)

above-flip : (a : Ptr) (k : List Frame) → above a (flip_all k) ≡ above a k
above-flip a [] = refl
above-flip a (on_left x r ∷ k) = ground (arith, member-flip a r, above-flip a k)
above-flip a (on_right l x ∷ k) = ground (arith, member-flip a l, above-flip a k)

flip-UniqueAbove : (k : List Frame) → UniqueAbove k → UniqueAbove (flip_all k)
flip-UniqueAbove [] u = tt
flip-UniqueAbove (on_left x r ∷ k) (a, b, u) =
    (rw (member-flip x r) a, rw (above-flip x k) b, flip-UniqueAbove k u)
flip-UniqueAbove (on_right l x ∷ k) (a, b, u) =
    (rw (member-flip x l) a, rw (above-flip x k) b, flip-UniqueAbove k u)

IsContext-flip :
    (t : Rbtree) (top p q : Ptr) (k : List Frame)
    → IsContext t top p q k
    → IsContext (mirror t) top p q (flip_all k)
IsContext-flip t top p q [] c = c
IsContext-flip t top p q (on_left x r ∷ k) (e, n, f, tree, c) =
    (e, n, f, IsTree-flip t x (t.right x) r tree, IsContext-flip t top x (t.parent x) k c)
IsContext-flip t top p q (on_right l x ∷ k) (e, n, f, tree, c) =
    (e, n, f, IsTree-flip t x (t.left x) l tree, IsContext-flip t top x (t.parent x) k c)

flip_all-flip_all : (k : List Frame) → flip_all (flip_all k) ≡ k
flip_all-flip_all [] = refl
flip_all-flip_all (on_left x r ∷ k) = rw (flip-flip r, flip_all-flip_all k) refl
flip_all-flip_all (on_right l x ∷ k) = rw (flip-flip l, flip_all-flip_all k) refl

-- In a tree of unique nodes, of which the parent of the root is none, `rbtree_right_rotate` at any
-- node whose left child is a node turns the subtree ((a y b) x c) into (a y (b x c)) and keeps all
-- else of the tree, the root pointer and the links to the parents included: the nodes keep their
-- order.
pub right_rotate-IsTree :
    (t : Rbtree) (top x y q : Ptr) (a b c : Shape) (k : List Frame)
    → IsTree t q x (fork (fork a y b) x c)
    → IsContext t top x q k
    → Unique (fork (fork a y b) x c)
    → UniqueAbove k
    → ((d : Ptr) → above d k ≡ true → member d (fork (fork a y b) x c) ≡ false)
    → member top (fork (fork a y b) x c) ≡ false
    → IsTree (rbtree_right_rotate t x) q y (fork a y (fork b x c))
      × IsContext (rbtree_right_rotate t x) top y q k
      × (nodes (plug k (fork a y (fork b x c))) ≡ nodes (plug k (fork (fork a y b) x c)))
right_rotate-IsTree t top x y q a b c k tree ctx u uk apart no_top =
    let whole = fork (fork a y b) x c in
    let (rotated, around, _) =
      left_rotate-IsTree (mirror t) top x y q (flip c) (flip b) (flip a) (flip_all k)
        (IsTree-flip t q x whole tree) (IsContext-flip t top x q k ctx) (flip-Unique whole u)
        (flip-UniqueAbove k uk) (λ d i. member-flip d whole ∙ apart d (sym (above-flip d k) ∙ i))
        (member-flip top whole ∙ no_top) in
    let v = rbtree_left_rotate (mirror t) x in
    let same = mirror-right_rotate t x in
    (
      subst (λ w. IsTree w q y (fork a y (fork b x c))) same
          (subst (λ sh. IsTree (mirror v) q y sh) (flip-flip (fork a y (fork b x c)))
            (IsTree-flip v q y (flip (fork a y (fork b x c))) rotated)),
      subst (λ w. IsContext w top y q k) same
          (subst (λ k'. IsContext (mirror v) top y q k') (flip_all-flip_all k)
            (IsContext-flip v top y q (flip_all k) around)),
      nodes-plug k (fork a y (fork b x c)) (fork (fork a y b) x c)
          (sym (append_assoc (nodes a) (y ∷ nodes b) (x ∷ nodes c))),
    )
