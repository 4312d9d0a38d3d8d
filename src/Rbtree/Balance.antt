-- ===== src/Rbtree/Balance.antt =====
-- The rounds of the loop of `rbtree_insert`: what they read, and how one leads to the next.
use libcn.Prelude.{
  ℕ, suc, ◌<◌, ◌≡◌, refl, Ptr, Bool, true, false, some, List, [], ◌∷◌, arith, length, Distinct, not,
  ◌&&◌, ◌==◌, ◌∙◌, ap, Bool-cases, inl, inr,
}
use package.libcn.Rbtree.{Rbtree, insert_fix_left, insert_fix_right, insert_fix}
use package.libcn.Rbtree.Shape.{Shape, leaf, fork, member, IsTree}
use package.libcn.Rbtree.Context.{Frame, on_left, on_right, plug, IsContext, root-above}
use package.libcn.Rbtree.Relink.{root-member}
use package.libcn.Rbtree.Zip.{node_of, fill, IsTree-fill, IsTree-plug, nodes-Parted}
use package.libcn.Rbtree.Colour.{root_red, top_red, IsRedBlack-plug}
use package.libcn.Rbtree.Fixing.{Fixing}
use package.libcn.Rbtree.Finish.{Fixed}

abbrev pub Rebalanced : ℕ → Rbtree → Ptr → Ptr → List Ptr → Type 0
Rebalanced fuel t x top ns =
    (v : Rbtree) × (insert_fix fuel t x ≡ some v)
    × Fixed v top ns
    × (v.key ≡ t.key)
    × (v.sentinel ≡ t.sentinel)

pub stop :
    (n : ℕ) (t : Rbtree) (x : Ptr)
    → (not (x == t.root) && t.red (t.parent x)) ≡ false
    → insert_fix (suc n) t x ≡ some t
unfolding insert_fix
stop n t x e = rw (e, insert_fix) refl

pub go_left :
    (n : ℕ) (t t' : Rbtree) (x x' : Ptr)
    → (not (x == t.root) && t.red (t.parent x)) ≡ true
    → (t.parent x == t.left (t.parent (t.parent x))) ≡ true
    → insert_fix_left t x ≡ (t', x')
    → insert_fix (suc n) t x ≡ insert_fix n t' x'
unfolding insert_fix
go_left n t t' x x' e d r = rw (e, insert_fix) (rw d (rw r refl))

pub go_right :
    (n : ℕ) (t t' : Rbtree) (x x' : Ptr)
    → (not (x == t.root) && t.red (t.parent x)) ≡ true
    → (t.parent x == t.left (t.parent (t.parent x))) ≡ false
    → insert_fix_right t x ≡ (t', x')
    → insert_fix (suc n) t x ≡ insert_fix n t' x'
unfolding insert_fix
go_right n t t' x x' e d r = rw (e, insert_fix) (rw d (rw r refl))

-- Where the parent is black, or there is none, the loop stops.
pub stopped :
    (n : ℕ) (t : Rbtree) (top : Ptr) (ns : List Ptr) (x : Ptr) (sh : Shape) (k : List Frame) (h : ℕ)
    → Fixing t top ns x sh k h
    → top_red t.red k ≡ false
    → Rebalanced (suc n) t x top ns
stopped n t top ns x sh k h s black =
    let (m, balanced) = IsRedBlack-plug t.red k sh h s.balanced s.above (λ i. black) in
    (
      t,
      stop n t x (test k s.context black),
      record {
        shape = plug k sh;
        height = m;
        tree = IsTree-plug t top x (t.parent x) k sh s.context s.tree;
        order = s.order;
        balanced = balanced;
        sentinel = s.sentinel;
      },
      refl,
      refl,
    )
  where
    test :
        (k' : List Frame)
        → IsContext t top x (t.parent x) k'
        → top_red t.red k' ≡ false
        → (not (x == t.root) && t.red (t.parent x)) ≡ false
    test [] (e, _) b = ground arith
    test (on_left z r ∷ k') (e, _, _, _, _) b = ground arith
    test (on_right l z ∷ k') (e, _, _, _, _) b = ground arith

-- What the code reads at a red parent with a parent of its own.
pub record Reads (t : Rbtree) (x z w : Ptr) (sh : Shape) : Type 0 where
  pub up : t.parent x ≡ z
  pub upper : t.parent z ≡ w
  pub more : (not (x == t.root) && t.red (t.parent x)) ≡ true
  pub real : (w == t.sentinel) ≡ false
  pub x_in : member x sh ≡ true
  pub x_real : (x == t.sentinel) ≡ false

goes_on :
    (x root : Ptr) (b : Bool) (sh : Shape)
    → member x sh ≡ true
    → member root sh ≡ false
    → b ≡ true
    → (not (x == root) && b) ≡ true
goes_on x root b sh i o e = ground arith

pub reads :
    (t : Rbtree) (top : Ptr) (ns : List Ptr) (x : Ptr) (sh : Shape) (f g : Frame) (k : List Frame)
    (h : ℕ)
    → Distinct ns
    → Fixing t top ns x sh (f ∷ g ∷ k) h
    → t.red (node_of f) ≡ true
    → Reads t x (node_of f) (node_of g) sh
reads t top ns x sh f g k h distinct s red_z =
    let (up, tree_z, around) = IsTree-fill t top x (t.parent x) f (g ∷ k) sh s.context s.tree in
    let (upper, tree_w, _) =
      IsTree-fill t top (node_of f) (t.parent (node_of f)) g k (fill f sh) around tree_z in
    let p = nodes-Parted (f ∷ g ∷ k) sh (rw s.order distinct) in
    let root_up = root-above t top x (t.parent x) f (g ∷ k) s.context in
    let root_out = p.apart t.root root_up in
    let x_in = x_member sh s.tree s.red in
    record {
      up = up;
      upper = upper;
      more = goes_on x t.root (t.red (t.parent x)) sh x_in root_out (ap t.red up ∙ red_z);
      real = real g tree_w;
      x_in = x_in;
      x_real = x_real sh s.tree s.red;
    }
  where
    x_member :
        (sh' : Shape)
        → IsTree t (t.parent x) x sh'
        → root_red t.red sh' ≡ true
        → member x sh' ≡ true
    x_member leaf e i = absurd (ground arith)
    x_member (fork l y r) (e, _, _, _, _) i = ground arith

    x_real :
        (sh' : Shape)
        → IsTree t (t.parent x) x sh'
        → root_red t.red sh' ≡ true
        → (x == t.sentinel) ≡ false
    x_real leaf e i = absurd (ground arith)
    x_real (fork l y r) (e, n, _, _, _) i = ground arith

    real :
        (g' : Frame)
        → IsTree t (t.parent (node_of g')) (node_of g') (fill g' (fill f sh))
        → (node_of g' == t.sentinel) ≡ false
    real (on_left w r) (_, n, _, _, _) = n
    real (on_right l w) (_, n, _, _, _) = n

-- The link to the other subtree of a node is not the node of a disjoint subtree.
pub apart_link :
    (t : Rbtree) (q p a : Ptr) (sh : Shape)
    → IsTree t q p sh
    → (a == t.sentinel) ≡ false
    → member a sh ≡ false
    → (a == p) ≡ false
apart_link t q p a sh e real out = elim (Bool-cases (p == t.sentinel)) [
  | inl i ↦ ground arith
  | inr n ↦ ground (arith, root-member t q p sh e n)
]

-- The rest of the loop, for the contexts below a length.
abbrev pub Loop : ℕ → Ptr → List Ptr → Type 0
Loop n top ns =
    (t : Rbtree) (x : Ptr) (sh : Shape) (k : List Frame) (h : ℕ)
    → Fixing t top ns x sh k h
    → length k < n
    → Rebalanced n t x top ns

-- A round that goes on with another tree and node, which has the same keys and sentinel.
pub next_round :
    (n : ℕ) (t t' : Rbtree) (x x' top : Ptr) (ns : List Ptr)
    → insert_fix (suc n) t x ≡ insert_fix n t' x'
    → t'.key ≡ t.key
    → t'.sentinel ≡ t.sentinel
    → Rebalanced n t' x' top ns
    → Rebalanced (suc n) t x top ns
next_round n t t' x x' top ns e key sentinel (v, done, fixed, same_key, same_sentinel) =
    (v, e ∙ done, fixed, same_key ∙ key, same_sentinel ∙ sentinel)

-- The last round: after it the parent is black.
pub last_round :
    (n : ℕ) (t v : Rbtree) (x x' top : Ptr) (ns : List Ptr)
    → insert_fix (suc (suc n)) t x ≡ insert_fix (suc n) v x'
    → v.key ≡ t.key
    → v.sentinel ≡ t.sentinel
    → Fixed v top ns × (v.red (v.parent x') ≡ false)
    → Rebalanced (suc (suc n)) t x top ns
last_round n t v x x' top ns e key sentinel (fixed, black) =
    (v, e ∙ stop n v x' (ground arith), fixed, key, sentinel)

-- Where the red parent is a left child, and where it is a right child.
pub at_left :
    (t : Rbtree) (x z w : Ptr)
    → t.parent x ≡ z
    → t.parent z ≡ w
    → t.left w ≡ z
    → (t.parent x == t.left (t.parent (t.parent x))) ≡ true
at_left t x z w e f g = ground arith

pub at_right :
    (t : Rbtree) (x z w : Ptr)
    → t.parent x ≡ z
    → t.parent z ≡ w
    → (z == t.left w) ≡ false
    → (t.parent x == t.left (t.parent (t.parent x))) ≡ false
at_right t x z w e f g = ground arith
