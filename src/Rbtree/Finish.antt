-- ===== src/Rbtree/Finish.antt =====
-- The last round of the loop of `rbtree_insert`: the grandparent turns down beside its black subtree.
use mathlib.Core.Path.{subst}
use libcn.Prelude.{
  ℕ, suc, ◌≡◌, refl, Ptr, Bool, true, false, List, ◌∷◌, arith, has, Distinct, ◌==◌, write, ◌∙◌, sym,
}
use package.libcn.Rbtree.{Rbtree, rbtree_left_rotate, rbtree_right_rotate}
use package.libcn.Rbtree.Shape.{Shape, leaf, fork, nodes, member, IsTree}
use package.libcn.Rbtree.Context.{Frame, on_left, on_right, plug, above}
use package.libcn.Rbtree.Rotate.{left_rotate-IsTree}
use package.libcn.Rbtree.Mirror.{right_rotate-IsTree}
use package.libcn.Rbtree.Zip.{IsTree-fill, IsTree-plug, nodes-Parted, member-subtree}
use package.libcn.Rbtree.Colour.{
  root_red, IsRedBlack, Above, IsRedBlack-plug, IsRedBlack-frame, root_red-frame, Above-frame,
}
use package.libcn.Rbtree.Fixing.{Fixing, IsTree-red, IsContext-red}
use package.libcn.Rbtree.Turn.{left_rotate-Painted, right_rotate-Painted}

-- A red-black tree of the nodes `ns` in order, whose root may be red.
pub record Fixed (v : Rbtree) (top : Ptr) (ns : List Ptr) : Type 0 where
  pub shape : Shape
  pub height : ℕ
  pub tree : IsTree v top v.root shape
  pub order : nodes shape ≡ ns
  pub balanced : IsRedBlack v.red shape height
  pub sentinel : v.red v.sentinel ≡ false

-- The colours with the parent black and the grandparent red.
abbrev pub settle : (Ptr → Bool) → (z w : Ptr) → Ptr → Bool
settle red z w = write (write red z false) w true

-- The colours do what is asked of them at the six places of the turn.
record Settled (red red' : Ptr → Bool) (z w : Ptr) (s r u : Shape) (k : List Frame) : Type 0 where
  at_z : red' z ≡ false
  at_w : red' w ≡ true
  on_s : (a : Ptr) → member a s ≡ true → red' a ≡ red a
  on_r : (a : Ptr) → member a r ≡ true → red' a ≡ red a
  on_u : (a : Ptr) → member a u ≡ true → red' a ≡ red a
  on_k : (a : Ptr) → above a k ≡ true → red' a ≡ red a

settle_lem :
    (red : Ptr → Bool) (z w a : Ptr) → red a ≡ false → (w == a) ≡ false → settle red z w a ≡ false
settle_lem red z w a b n = ground arith

parent_of_root :
    (t v : Rbtree) (q z x p : Ptr) (sh : Shape)
    → IsTree t q x sh
    → root_red t.red sh ≡ true
    → IsTree v z p sh
    → v.parent x ≡ z
parent_of_root t v q z x p leaf e i f = absurd (ground arith)
parent_of_root t v q z x p (fork l y r) (e, _, _, _, _) i (_, _, f, _, _) = rw e f

Fixing-settle_left :
    (t : Rbtree) (top : Ptr) (ns : List Ptr) (x z w : Ptr) (sh r u : Shape) (k : List Frame) (h : ℕ)
    → Distinct ns
    → Fixing t top ns x sh (on_left z r ∷ on_left w u ∷ k) h
    → Settled t.red (settle t.red z w) z w sh r u k
Fixing-settle_left t top ns x z w sh r u k h distinct s =
    let p = nodes-Parted k (fork (fork sh z r) w u) (rw s.order distinct) in
    let (w_z, w_u, apart, (z_s, z_r, s_r, _, _), _) = p.below in
    let z_u = apart z in
    let p_apart = p.apart in
    record {
      at_z = ground arith;
      at_w = ground arith;
      on_s = λ a i. ground arith;
      on_r = λ a i. ground arith;
      on_u = λ a i. ground (arith, apart a);
      on_k = λ a i. ground (arith, p_apart a);
    }

-- The parent `z` on the left of `w`, the node outside.
pub Fixing-finish_left :
    (t : Rbtree) (top : Ptr) (ns : List Ptr) (x z w : Ptr) (sh r u : Shape) (k : List Frame) (h : ℕ)
    → Distinct ns
    → has top ns ≡ false
    → Fixing t top ns x sh (on_left z r ∷ on_left w u ∷ k) h
    → t.red z ≡ true
    → root_red t.red u ≡ false
    → (let v = rbtree_right_rotate (record t { red = settle t.red z w }) w in
        Fixed v top ns × (v.red (v.parent x) ≡ false))
Fixing-finish_left t top ns x z w sh r u k h distinct out s red_z black_u =
    let red' = settle t.red z w in
    let t1 = record t { red = red' } in
    let v = rbtree_right_rotate t1 w in
    let c = right_rotate-Painted t1 w in
    let d = Fixing-settle_left t top ns x z w sh r u k h distinct s in
    let whole = fork (fork sh z r) w u in
    let (_, tree_z, around_z) =
      IsTree-fill t top x (t.parent x) (on_left z r) (on_left w u ∷ k) sh s.context s.tree in
    let (_, tree_w, around_w) =
      IsTree-fill t top z (t.parent z) (on_left w u) k (fork sh z r) around_z tree_z in
    let p = nodes-Parted k whole (rw s.order distinct) in
    let no_top : member top whole ≡ false = member-subtree top ns k whole s.order out in
    let (turned, around, order) =
      right_rotate-IsTree t1 top w z (t.parent w) sh r u k
        (IsTree-red t red' (t.parent w) w whole tree_w)
        (IsContext-red t red' top w (t.parent w) k around_w) p.below p.upper p.apart no_top in
    let (_, _, _, x_tree, _) = turned in
    let (bal_r, cond_r, rest) = s.above in
    let (bal_u, _, above_k) = rest in
    let red_w = (cond_r red_z).1 in
    let bal_u' : IsRedBlack t.red u h = rw red_z at bal_u in
    let above_k' : Above t.red k (suc h) = rw (red_z, red_w) at above_k in
    let bal : IsRedBlack red' (fork sh z (fork r w u)) (suc h) = (
      h,
      rw d.at_z refl,
      IsRedBlack-frame t.red red' sh h d.on_s s.balanced,
      (
        h,
        rw d.at_w refl,
        IsRedBlack-frame t.red red' r h d.on_r bal_r,
        IsRedBlack-frame t.red red' u h d.on_u bal_u',
        λ i. (
          root_red-frame t.red red' r d.on_r ∙ (cond_r red_z).0,
          root_red-frame t.red red' u d.on_u ∙ black_u,
        ),
      ),
      λ i. absurd (ground (arith, d.at_z)),
    ) in
    let (m, balanced) =
      IsRedBlack-plug red' k (fork sh z (fork r w u)) (suc h) bal
        (Above-frame t.red red' k (suc h) d.on_k above_k') (λ i. absurd (ground (arith, d.at_z))) in
    let x_parent = parent_of_root t v (t.parent x) z x (v.left z) sh s.tree s.red x_tree in
    (
      record {
        shape = plug k (fork sh z (fork r w u));
        height = m;
        tree = IsTree-plug v top z (t.parent w) k (fork sh z (fork r w u)) around turned;
        order = order ∙ s.order;
        balanced =
            subst (λ o. IsRedBlack o (plug k (fork sh z (fork r w u))) m) (sym c.red) balanced;
        sentinel = rw (c.red, c.sentinel) (settle_lem t.red z w t.sentinel s.sentinel tree_w.1);
      },
      rw (c.red, x_parent) d.at_z,
    )

Fixing-settle_right :
    (t : Rbtree) (top : Ptr) (ns : List Ptr) (x z w : Ptr) (sh r u : Shape) (k : List Frame) (h : ℕ)
    → Distinct ns
    → Fixing t top ns x sh (on_right r z ∷ on_right u w ∷ k) h
    → Settled t.red (settle t.red z w) z w sh r u k
Fixing-settle_right t top ns x z w sh r u k h distinct s =
    let p = nodes-Parted k (fork u w (fork r z sh)) (rw s.order distinct) in
    let (w_u, w_z, apart, _, (z_r, z_s, r_s, _, _)) = p.below in
    let p_apart = p.apart in
    record {
      at_z = ground arith;
      at_w = ground arith;
      on_s = λ a i. ground arith;
      on_r = λ a i. ground arith;
      on_u = λ a i. ground (arith, apart a);
      on_k = λ a i. ground (arith, p_apart a);
    }

-- The same on the right.
pub Fixing-finish_right :
    (t : Rbtree) (top : Ptr) (ns : List Ptr) (x z w : Ptr) (sh r u : Shape) (k : List Frame) (h : ℕ)
    → Distinct ns
    → has top ns ≡ false
    → Fixing t top ns x sh (on_right r z ∷ on_right u w ∷ k) h
    → t.red z ≡ true
    → root_red t.red u ≡ false
    → (let v = rbtree_left_rotate (record t { red = settle t.red z w }) w in
        Fixed v top ns × (v.red (v.parent x) ≡ false))
Fixing-finish_right t top ns x z w sh r u k h distinct out s red_z black_u =
    let red' = settle t.red z w in
    let t1 = record t { red = red' } in
    let v = rbtree_left_rotate t1 w in
    let c = left_rotate-Painted t1 w in
    let d = Fixing-settle_right t top ns x z w sh r u k h distinct s in
    let whole = fork u w (fork r z sh) in
    let (_, tree_z, around_z) =
      IsTree-fill t top x (t.parent x) (on_right r z) (on_right u w ∷ k) sh s.context s.tree in
    let (_, tree_w, around_w) =
      IsTree-fill t top z (t.parent z) (on_right u w) k (fork r z sh) around_z tree_z in
    let p = nodes-Parted k whole (rw s.order distinct) in
    let no_top : member top whole ≡ false = member-subtree top ns k whole s.order out in
    let (turned, around, order) =
      left_rotate-IsTree t1 top w z (t.parent w) u r sh k
        (IsTree-red t red' (t.parent w) w whole tree_w)
        (IsContext-red t red' top w (t.parent w) k around_w) p.below p.upper p.apart no_top in
    let (_, _, _, _, x_tree) = turned in
    let (bal_r, cond_r, rest) = s.above in
    let (bal_u, _, above_k) = rest in
    let red_w = (cond_r red_z).1 in
    let bal_u' : IsRedBlack t.red u h = rw red_z at bal_u in
    let above_k' : Above t.red k (suc h) = rw (red_z, red_w) at above_k in
    let bal : IsRedBlack red' (fork (fork u w r) z sh) (suc h) = (
      h,
      rw d.at_z refl,
      (
        h,
        rw d.at_w refl,
        IsRedBlack-frame t.red red' u h d.on_u bal_u',
        IsRedBlack-frame t.red red' r h d.on_r bal_r,
        λ i. (
          root_red-frame t.red red' u d.on_u ∙ black_u,
          root_red-frame t.red red' r d.on_r ∙ (cond_r red_z).0,
        ),
      ),
      IsRedBlack-frame t.red red' sh h d.on_s s.balanced,
      λ i. absurd (ground (arith, d.at_z)),
    ) in
    let (m, balanced) =
      IsRedBlack-plug red' k (fork (fork u w r) z sh) (suc h) bal
        (Above-frame t.red red' k (suc h) d.on_k above_k') (λ i. absurd (ground (arith, d.at_z))) in
    let x_parent = parent_of_root t v (t.parent x) z x (v.right z) sh s.tree s.red x_tree in
    (
      record {
        shape = plug k (fork (fork u w r) z sh);
        height = m;
        tree = IsTree-plug v top z (t.parent w) k (fork (fork u w r) z sh) around turned;
        order = order ∙ s.order;
        balanced =
            subst (λ o. IsRedBlack o (plug k (fork (fork u w r) z sh)) m) (sym c.red) balanced;
        sentinel = rw (c.red, c.sentinel) (settle_lem t.red z w t.sentinel s.sentinel tree_w.1);
      },
      rw (c.red, x_parent) d.at_z,
    )
