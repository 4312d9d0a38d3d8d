-- ===== src/Rbtree/RedBlack.antt =====
-- `rbtree_insert` on a whole red-black tree.
use mathlib.Core.Path.{subst}
use libcn.Prelude.{
  ℕ, suc, ◌≡◌, refl, Ptr, null, Bool, true, false, List, [], arith, has, Distinct, ◌==◌, write, ◌∙◌,
  ap, sym,
}
use package.libcn.Rbtree.{Rbtree, rbt_black}
use package.libcn.Rbtree.Shape.{Shape, leaf, fork, nodes, member, Unique, IsTree}
use package.libcn.Rbtree.Attach.{Inserted}
use package.libcn.Rbtree.Insert.{grow}
use package.libcn.Rbtree.Context.{plug, IsContext}
use package.libcn.Rbtree.Zip.{nodes-Unique}
use package.libcn.Rbtree.Colour.{root_red, IsRedBlack, IsRedBlack-frame, root_red-frame}
use package.libcn.Rbtree.Fixing.{Fixing, IsTree-red}
use package.libcn.Rbtree.Finish.{Fixed}
use package.libcn.Rbtree.Way.{way, plug-way, Above-way, RootBlack-way, IsTree-unplug}

-- A red-black tree whose nodes are `ns` from left to right.
pub record RedBlack (t : Rbtree) (ns : List Ptr) : Type 0 where
  pub shape : Shape
  pub blacks : ℕ
  pub tree : IsTree t null t.root shape
  pub order : nodes shape ≡ ns
  pub distinct : Distinct ns
  pub no_null : has null ns ≡ false
  pub balanced : IsRedBlack t.red shape blacks
  pub root_black : t.red t.root ≡ false
  pub sentinel : t.red t.sentinel ≡ false

-- The state after the new node is in its place.
pub start :
    (less : ℕ → ℕ → Bool) (t v : Rbtree) (node : Ptr) (sh : Shape) (h : ℕ)
    → IsRedBlack t.red sh h
    → root_red t.red sh ≡ false
    → member node sh ≡ false
    → (node == t.sentinel) ≡ false
    → t.red t.sentinel ≡ false
    → Inserted t v null t.root node sh (grow less t.key node sh)
    → Fixing v null
        (nodes (grow less t.key node sh))
        node
        (fork leaf node leaf)
        (way less t.key node sh [])
        0
start less t v node sh h balanced black out real sentinel ins =
    let k = way less t.key node sh [] in
    let same : (a : Ptr) → member a sh ≡ true → v.red a ≡ t.red a =
      λ a i. ins.colours a (other_node a i) in
    let plugged = plug-way less t.key node sh [] in
    let whole : IsTree v null v.root (plug k (fork leaf node leaf)) =
      subst (λ s. IsTree v null v.root s) (sym plugged)
        (subst (λ p. IsTree v null p (grow less t.key node sh)) (sym ins.root) ins.tree) in
    let (p, q, around, (e, n, b, lt, rt)) = IsTree-unplug v null k (fork leaf node leaf) whole in
    record {
      tree = (refl, n, refl, lt, rt);
      context =
          subst (λ z. IsContext v null node z k) (sym b)
            (subst (λ y. IsContext v null y q k) e around);
      order = ap nodes plugged;
      red = ins.red;
      balanced = (0, rw ins.red refl, refl, refl, λ i. (refl, refl));
      above =
          Above-way less t.key node v.red sh [] h (IsRedBlack-frame t.red v.red sh h same balanced)
            tt (λ i. refl);
      root_black =
          RootBlack-way less t.key node v.red sh (root_red-frame t.red v.red sh same ∙ black);
      sentinel = rw ins.sentinel (ins.colours t.sentinel (ground arith) ∙ sentinel);
    }
  where
    other_node : (a : Ptr) → member a sh ≡ true → (a == node) ≡ false
    other_node a i = ground arith

other_colour :
    (red : Ptr → Bool) (root x a : Ptr) (sh : Shape)
    → root ≡ x
    → member x sh ≡ false
    → member a sh ≡ true
    → write red root false a ≡ red a
other_colour red root x a sh e out i = ground arith

-- The root turns black.
pub blacken :
    (v : Rbtree) (ns : List Ptr)
    → Distinct ns
    → has null ns ≡ false
    → Fixed v null ns
    → RedBlack (rbt_black v v.root) ns
blacken v ns distinct no_null f =
    let (m, balanced) =
      whole f.shape (nodes-Unique f.shape (rw f.order distinct)) f.tree f.balanced in
    record {
      shape = f.shape;
      blacks = m;
      tree = IsTree-red v (write v.red v.root false) null v.root f.shape f.tree;
      order = f.order;
      distinct = distinct;
      no_null = no_null;
      balanced = balanced;
      root_black = ground arith;
      sentinel = ground (arith, f.sentinel);
    }
  where
    whole :
        (sh : Shape)
        → Unique sh
        → IsTree v null v.root sh
        → IsRedBlack v.red sh f.height
        → (m : ℕ) × IsRedBlack (write v.red v.root false) sh m
    whole leaf u e b = (f.height, b)
    whole (fork l x r) (xl, xr, apart, ul, ur) (e, n, p, lt, rt) (m, g, bl, br, c) = (
      suc m,
      (
        m,
        rw e (ground arith),
        IsRedBlack-frame v.red (write v.red v.root false) l m
            (λ a i. other_colour v.red v.root x a l e xl i) bl,
        IsRedBlack-frame v.red (write v.red v.root false) r m
            (λ a i. other_colour v.red v.root x a r e xr i) br,
        λ i. absurd (ground arith),
      ),
    )
