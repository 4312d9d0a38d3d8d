-- ===== src/Rbtree/Turn.antt =====
-- The rotations of the loop of `rbtree_insert` where the uncle is black.
use mathlib.Core.Path.{subst}
use libcn.Prelude.{
  ℕ, ◌≡◌, refl, Ptr, Bool, true, false, List, [], ◌∷◌, arith, has, Distinct, ◌∙◌, sym,
}
use package.libcn.Rbtree.{Rbtree, rbtree_left_rotate, rbtree_right_rotate}
use package.libcn.Rbtree.Shape.{Shape, fork, member, IsTree}
use package.libcn.Rbtree.Context.{Frame, on_left, on_right, IsContext}
use package.libcn.Rbtree.Rotate.{left_rotate-IsTree}
use package.libcn.Rbtree.Mirror.{right_rotate-IsTree}
use package.libcn.Rbtree.Zip.{node_of, IsTree-fill, nodes-Parted, member-subtree}
use package.libcn.Rbtree.Colour.{IsRedBlack, Above}
use package.libcn.Rbtree.Fixing.{RootBlack, Fixing}

-- A rotation writes no colour and no key, and leaves the sentinel.
pub record Painted (t v : Rbtree) : Type 0 where
  pub red : v.red ≡ t.red
  pub key : v.key ≡ t.key
  pub sentinel : v.sentinel ≡ t.sentinel

pub left_rotate-Painted : (t : Rbtree) (x : Ptr) → Painted t (rbtree_left_rotate t x)
unfolding rbtree_left_rotate
left_rotate-Painted t x = record { red = ground arith; key = ground arith; sentinel = ground arith }

pub right_rotate-Painted : (t : Rbtree) (x : Ptr) → Painted t (rbtree_right_rotate t x)
unfolding rbtree_right_rotate
right_rotate-Painted t x = record {
  red = ground arith;
  key = ground arith;
  sentinel = ground arith;
}

RootBlack-swap :
    (red : Ptr → Bool) (f g : Frame) (k : List Frame)
    → RootBlack red (f ∷ k)
    → red (node_of f) ≡ true
    → RootBlack red (g ∷ k)
RootBlack-swap red f g [] b e = absurd (ground arith)
RootBlack-swap red f g (n ∷ k) b e = b

-- An inner grandchild is turned outwards: the loop then stands at its former parent.
pub Fixing-left_rotate :
    (t : Rbtree) (top : Ptr) (ns : List Ptr) (x z : Ptr) (a b l : Shape) (k : List Frame) (h : ℕ)
    → Distinct ns
    → has top ns ≡ false
    → Fixing t top ns x (fork a x b) (on_right l z ∷ k) h
    → t.red z ≡ true
    → Fixing (rbtree_left_rotate t z) top ns z (fork l z a) (on_left x b ∷ k) h
Fixing-left_rotate t top ns x z a b l k h distinct out s red_z =
    let v = rbtree_left_rotate t z in
    let c = left_rotate-Painted t z in
    let sh = fork l z (fork a x b) in
    let (_, tree, around) =
      IsTree-fill t top x (t.parent x) (on_right l z) k (fork a x b) s.context s.tree in
    let p = nodes-Parted k sh (rw s.order distinct) in
    let no_top : member top sh ≡ false = member-subtree top ns k sh s.order out in
    let (turned, around', order) =
      left_rotate-IsTree t top z x (t.parent z) l a b k tree around p.below p.upper p.apart
        no_top in
    let (_, x_real, x_parent, below, right) = turned in
    let (x_left, z_real, z_parent, l_tree, a_tree) = below in
    let (bal_l, cond_l, above_k) = s.above in
    let (m, e, bal_a, bal_b, cond_x) = s.balanced in
    let same_h : h ≡ m = rw s.red at e in
    let red_x = s.red in
    let bal_a' : IsRedBlack t.red a h = rw same_h bal_a in
    let bal_b' : IsRedBlack t.red b h = rw same_h bal_b in
    let above_k' : Above t.red k h = rw red_z at above_k in
    let top_black = (cond_l red_z).1 in
    let below' : IsTree v x z (fork l z a) = (refl, z_real, z_parent, l_tree, a_tree) in
    let context' : IsContext v top z x (on_left x b ∷ k) =
      (refl, x_real, x_left, right, rw x_parent around') in
    let bal' : IsRedBlack t.red (fork l z a) h =
      (h, rw red_z refl, bal_l, bal_a', λ i. ((cond_l red_z).0, (cond_x red_x).0)) in
    let above' : Above t.red (on_left x b ∷ k) h =
      (bal_b', λ i. ((cond_x red_x).1, top_black), rw red_x above_k') in
    record {
      tree = subst (λ q. IsTree v q z (fork l z a)) (sym z_parent) below';
      context = subst (λ q. IsContext v top z q (on_left x b ∷ k)) (sym z_parent) context';
      order = order ∙ s.order;
      red = rw c.red red_z;
      balanced = subst (λ r. IsRedBlack r (fork l z a) h) (sym c.red) bal';
      above = subst (λ r. Above r (on_left x b ∷ k) h) (sym c.red) above';
      root_black =
          subst (λ r. RootBlack r (on_left x b ∷ k)) (sym c.red)
            (RootBlack-swap t.red (on_right l z) (on_left x b) k s.root_black red_z);
      sentinel = rw (c.red, c.sentinel) s.sentinel;
    }

pub Fixing-right_rotate :
    (t : Rbtree) (top : Ptr) (ns : List Ptr) (x z : Ptr) (a b r : Shape) (k : List Frame) (h : ℕ)
    → Distinct ns
    → has top ns ≡ false
    → Fixing t top ns x (fork a x b) (on_left z r ∷ k) h
    → t.red z ≡ true
    → Fixing (rbtree_right_rotate t z) top ns z (fork b z r) (on_right a x ∷ k) h
Fixing-right_rotate t top ns x z a b r k h distinct out s red_z =
    let v = rbtree_right_rotate t z in
    let c = right_rotate-Painted t z in
    let sh = fork (fork a x b) z r in
    let (_, tree, around) =
      IsTree-fill t top x (t.parent x) (on_left z r) k (fork a x b) s.context s.tree in
    let p = nodes-Parted k sh (rw s.order distinct) in
    let no_top : member top sh ≡ false = member-subtree top ns k sh s.order out in
    let (turned, around', order) =
      right_rotate-IsTree t top z x (t.parent z) a b r k tree around p.below p.upper p.apart
        no_top in
    let (_, x_real, x_parent, left, below) = turned in
    let (x_right, z_real, z_parent, b_tree, r_tree) = below in
    let (bal_r, cond_r, above_k) = s.above in
    let (m, e, bal_a, bal_b, cond_x) = s.balanced in
    let same_h : h ≡ m = rw s.red at e in
    let red_x = s.red in
    let bal_a' : IsRedBlack t.red a h = rw same_h bal_a in
    let bal_b' : IsRedBlack t.red b h = rw same_h bal_b in
    let above_k' : Above t.red k h = rw red_z at above_k in
    let top_black = (cond_r red_z).1 in
    let below' : IsTree v x z (fork b z r) = (refl, z_real, z_parent, b_tree, r_tree) in
    let context' : IsContext v top z x (on_right a x ∷ k) =
      (refl, x_real, x_right, left, rw x_parent around') in
    let bal' : IsRedBlack t.red (fork b z r) h =
      (h, rw red_z refl, bal_b', bal_r, λ i. ((cond_x red_x).1, (cond_r red_z).0)) in
    let above' : Above t.red (on_right a x ∷ k) h =
      (bal_a', λ i. ((cond_x red_x).0, top_black), rw red_x above_k') in
    record {
      tree = subst (λ q. IsTree v q z (fork b z r)) (sym z_parent) below';
      context = subst (λ q. IsContext v top z q (on_right a x ∷ k)) (sym z_parent) context';
      order = order ∙ s.order;
      red = rw c.red red_z;
      balanced = subst (λ o. IsRedBlack o (fork b z r) h) (sym c.red) bal';
      above = subst (λ o. Above o (on_right a x ∷ k) h) (sym c.red) above';
      root_black =
          subst (λ o. RootBlack o (on_right a x ∷ k)) (sym c.red)
            (RootBlack-swap t.red (on_left z r) (on_right a x) k s.root_black red_z);
      sentinel = rw (c.red, c.sentinel) s.sentinel;
    }
