-- ===== src/Rbtree/Zip.antt =====
-- Steps up the way from a subtree to the root, and the order of the nodes of the whole tree.
use libcn.Prelude.{
  ◌≡◌, refl, Ptr, true, false, List, [], ◌∷◌, ◌++◌, arith, has, has-append, Distinct, ◌||◌, ◌∙◌, ap,
}
use package.libcn.Rbtree.{Rbtree}
use package.libcn.Rbtree.Shape.{Shape, leaf, fork, nodes, member, Unique, IsTree}
use package.libcn.Rbtree.Context.{Frame, on_left, on_right, plug, above, UniqueAbove, IsContext}

-- The node of a frame, its other subtree, and the subtree at the node.
abbrev pub node_of : Frame → Ptr
node_of (on_left x r) = x
node_of (on_right l x) = x

abbrev pub other : Frame → Shape
other (on_left x r) = r
other (on_right l x) = l

abbrev pub fill : Frame → Shape → Shape
fill (on_left x r) sh = fork sh x r
fill (on_right l x) sh = fork l x sh

pub plug-fill : (f : Frame) (k : List Frame) (sh : Shape) → plug (f ∷ k) sh ≡ plug k (fill f sh)
plug-fill (on_left x r) k sh = refl
plug-fill (on_right l x) k sh = refl

pub IsTree-fill :
    (t : Rbtree) (top p q : Ptr) (f : Frame) (k : List Frame) (sh : Shape)
    → IsContext t top p q (f ∷ k)
    → IsTree t q p sh
    → (q ≡ node_of f)
      × IsTree t (t.parent (node_of f)) (node_of f) (fill f sh)
      × IsContext t top (node_of f) (t.parent (node_of f)) k
IsTree-fill t top p q (on_left x r) k sh (e, n, l, tree, c) s =
    (e, (refl, n, refl, rw l (rw⁻¹ e s), tree), c)
IsTree-fill t top p q (on_right l' x) k sh (e, n, b, tree, c) s =
    (e, (refl, n, refl, tree, rw b (rw⁻¹ e s)), c)

pub IsTree-plug :
    (t : Rbtree) (top p q : Ptr) (k : List Frame) (sh : Shape)
    → IsContext t top p q k
    → IsTree t q p sh
    → IsTree t top t.root (plug k sh)
IsTree-plug t top p q [] sh (e, f) s = rw (e, ← f) s
IsTree-plug t top p q (f ∷ k) sh c s =
    let (_, tree, around) = IsTree-fill t top p q f k sh c s in
    rw (plug-fill f k sh)
      (IsTree-plug t top (node_of f) (t.parent (node_of f)) k (fill f sh) around tree)

pub member-nodes : (a : Ptr) (sh : Shape) → member a sh ≡ has a (nodes sh)
member-nodes a leaf = refl
member-nodes a (fork l x r) =
    ground (arith, member-nodes a l, member-nodes a r, has-append a (nodes l) (x ∷ nodes r))

Distinct-parts :
    (xs ys : List Ptr)
    → Distinct (xs ++ ys)
    → Distinct xs × Distinct ys × ((a : Ptr) → has a xs ≡ true → has a ys ≡ false)
Distinct-parts [] ys d = (tt, d, λ a i. absurd (ground arith))
Distinct-parts (x ∷ xs) ys (o, d) =
    let (dx, dy, apart) = Distinct-parts xs ys d in
    (
      (ground (arith, has-append x xs ys), dx),
      dy,
      λ a i. ground (arith, has-append x xs ys, apart a),
    )

pub nodes-Unique : (sh : Shape) → Distinct (nodes sh) → Unique sh
nodes-Unique leaf d = tt
nodes-Unique (fork l x r) d =
    let (dl, (xr, dr), apart) = Distinct-parts (nodes l) (x ∷ nodes r) d in
    (
      ground (arith, member-nodes x l, apart x),
      ground (arith, member-nodes x r),
      λ a i. ground (arith, member-nodes a l, member-nodes a r, apart a),
      nodes-Unique l dl,
      nodes-Unique r dr,
    )

-- A tree of distinct nodes, seen from a subtree.
pub record Parted (k : List Frame) (sh : Shape) : Type 0 where
  pub below : Unique sh
  pub upper : UniqueAbove k
  pub apart : (a : Ptr) → above a k ≡ true → member a sh ≡ false

pub Parted-fill :
    (f : Frame) (k : List Frame) (sh : Shape) → Parted k (fill f sh) → Parted (f ∷ k) sh
Parted-fill (on_left x r) k sh p =
    let (xs, xr, disjoint, us, ur) = p.below in
    let apart = p.apart in
    record {
      below = us;
      upper = (xr, ground (arith, apart x), p.upper);
      apart = λ a i. ground (arith, disjoint a, apart a);
    }
Parted-fill (on_right l x) k sh p =
    let (xl, xs, disjoint, ul, us) = p.below in
    let apart = p.apart in
    record {
      below = us;
      upper = (xl, ground (arith, apart x), p.upper);
      apart = λ a i. ground (arith, disjoint a, apart a);
    }

pub nodes-Parted : (k : List Frame) (sh : Shape) → Distinct (nodes (plug k sh)) → Parted k sh
nodes-Parted [] sh d = record {
  below = nodes-Unique sh d;
  upper = tt;
  apart = λ a i. absurd (ground arith);
}
nodes-Parted (f ∷ k) sh d =
    Parted-fill f k sh (nodes-Parted k (fill f sh) (rw (plug-fill f k sh) at d))

-- A node of the subtree or above it is a node of the tree.
pub member-plug :
    (a : Ptr) (k : List Frame) (sh : Shape) → member a (plug k sh) ≡ (member a sh || above a k)
member-plug a [] sh = ground arith
member-plug a (on_left x r ∷ k) sh = ground (arith, member-plug a k (fork sh x r))
member-plug a (on_right l x ∷ k) sh = ground (arith, member-plug a k (fork l x sh))

-- What is no node of the tree is none of the subtree.
pub member-subtree :
    (a : Ptr) (ns : List Ptr) (k : List Frame) (sh : Shape)
    → nodes (plug k sh) ≡ ns
    → has a ns ≡ false
    → member a sh ≡ false
member-subtree a ns k sh e out =
    let whole : member a (plug k sh) ≡ false = member-nodes a (plug k sh) ∙ ap (has a) e ∙ out in
    ground (arith, member-plug a k sh)
