-- ===== src/Rbtree/Fixing.antt =====
-- The state of the loop of `rbtree_insert`: a red node whose parent may be red, all else in order.
use libcn.Prelude.{
  ℕ, suc, ◌≡◌, refl, Ptr, Bool, true, false, List, [], ◌∷◌, arith, Distinct, ◌==◌, ◌||◌, write, ◌∙◌,
  ap,
}
use package.libcn.Rbtree.{Rbtree}
use package.libcn.Rbtree.Shape.{Shape, fork, nodes, member, Unique, IsTree, IsTree-frame}
use package.libcn.Rbtree.Context.{Frame, on_left, on_right, plug, above, IsContext, IsContext-frame}
use package.libcn.Rbtree.Zip.{node_of, other, fill, plug-fill, IsTree-fill, Parted, nodes-Parted}
use package.libcn.Rbtree.Colour.{
  root_red, IsRedBlack, Above, IsRedBlack-fill, root_red-fill, IsRedBlack-frame, Above-frame,
  top_red-frame,
}

-- The node at the top of the tree, if it is above, is black.
abbrev pub RootBlack : (Ptr → Bool) → List Frame → Type 0
RootBlack red [] = Unit
RootBlack red (f ∷ []) = red (node_of f) ≡ false
RootBlack red (f ∷ g ∷ k) = RootBlack red (g ∷ k)

pub record Fixing (t : Rbtree) (top : Ptr) (ns : List Ptr) (x : Ptr) (sh : Shape) (k : List Frame)
    (h : ℕ) : Type 0 where
  pub tree : IsTree t (t.parent x) x sh
  pub context : IsContext t top x (t.parent x) k
  pub order : nodes (plug k sh) ≡ ns
  pub red : root_red t.red sh ≡ true
  pub balanced : IsRedBlack t.red sh h
  pub above : Above t.red k h
  pub root_black : RootBlack t.red k
  pub sentinel : t.red t.sentinel ≡ false

RootBlack-frame :
    (red red' : Ptr → Bool) (k : List Frame)
    → ((a : Ptr) → above a k ≡ true → red' a ≡ red a)
    → RootBlack red k
    → RootBlack red' k
RootBlack-frame red red' [] same b = tt
RootBlack-frame red red' (f ∷ []) same b = top_red-frame red red' (f ∷ []) same ∙ b
RootBlack-frame red red' (on_left x r ∷ g ∷ k) same b =
    RootBlack-frame red red' (g ∷ k) (λ a i. same a (ground arith)) b
RootBlack-frame red red' (on_right l x ∷ g ∷ k) same b =
    RootBlack-frame red red' (g ∷ k) (λ a i. same a (ground arith)) b

pub RootBlack-up :
    (red : Ptr → Bool) (f : Frame) (k : List Frame) → RootBlack red (f ∷ k) → RootBlack red k
RootBlack-up red f [] b = tt
RootBlack-up red f (g ∷ k) b = b

-- Colours are no links.
pub IsTree-red :
    (t : Rbtree) (red : Ptr → Bool) (q p : Ptr) (sh : Shape)
    → IsTree t q p sh
    → IsTree (record t { red = red }) q p sh
IsTree-red t red q p sh e =
    IsTree-frame t (record t { red = red }) q p sh e
      (record { left = λ a i. refl; right = λ a i. refl; parent = λ a i. refl; sentinel = refl })

pub IsContext-red :
    (t : Rbtree) (red : Ptr → Bool) (top p q : Ptr) (k : List Frame)
    → IsContext t top p q k
    → IsContext (record t { red = red }) top p q k
IsContext-red t red top p q k e =
    IsContext-frame t (record t { red = red }) top p q k e
      (record {
        left = λ a i. refl;
        right = λ a i. refl;
        parent = λ a i. refl;
        sentinel = refl;
        root = refl;
      })

pub member-fill :
    (a : Ptr) (f : Frame) (sh : Shape)
    → member a (fill f sh) ≡ (a == node_of f || (member a sh || member a (other f)))
member-fill a (on_left x r) sh = refl
member-fill a (on_right l x) sh = ground arith

pub above-frame :
    (a : Ptr) (f : Frame) (k : List Frame)
    → above a (f ∷ k) ≡ (a == node_of f || (member a (other f) || above a k))
above-frame a (on_left x r) k = refl
above-frame a (on_right l x) k = refl

pub Unique-fill :
    (f : Frame) (sh : Shape)
    → Unique (fill f sh)
    → Unique (other f) × (member (node_of f) (other f) ≡ false)
Unique-fill (on_left x r) sh (xs, xr, disjoint, us, ur) = (ur, xr)
Unique-fill (on_right l x) sh (xl, xs, disjoint, ul, us) = (ul, xl)

-- The colours with `z` and `u` black and `w` red.
abbrev pub repaint : (Ptr → Bool) → (z u w : Ptr) → Ptr → Bool
repaint red z u w = write (write (write red z false) u false) w true

repaint_lem :
    (red : Ptr → Bool) (z u w a : Ptr)
    → red a ≡ false
    → (w == a) ≡ false
    → repaint red z u w a ≡ false
repaint_lem red z u w a b n = ground arith

-- The tree of a red uncle `u`, which turns black.
blackened :
    (red red' : Ptr → Bool) (c d : Shape) (u : Ptr) (h : ℕ)
    → IsRedBlack red (fork c u d) h
    → red u ≡ true
    → red' u ≡ false
    → ((a : Ptr) → member a c ≡ true → red' a ≡ red a)
    → ((a : Ptr) → member a d ≡ true → red' a ≡ red a)
    → IsRedBlack red' (fork c u d) (suc h)
blackened red red' c d u h (m, e, bc, bd, _) was now same_c same_d = (
  m,
  rw (e, was, now) refl,
  IsRedBlack-frame red red' c m same_c bc,
  IsRedBlack-frame red red' d m same_d bd,
  λ i. absurd (ground arith),
)

-- A red parent and a red uncle turn black and the grandparent red, and the loop goes on there.
pub Fixing-repaint :
    (t : Rbtree) (top : Ptr) (ns : List Ptr) (x : Ptr) (sh : Shape) (f g : Frame) (k : List Frame)
    (h : ℕ) (c d : Shape) (u : Ptr)
    → Distinct ns
    → Fixing t top ns x sh (f ∷ g ∷ k) h
    → other g ≡ fork c u d
    → t.red (node_of f) ≡ true
    → t.red u ≡ true
    → (node_of g == t.sentinel) ≡ false
    → (let v = record t { red = repaint t.red (node_of f) u (node_of g) } in
        Fixing v top ns (node_of g) (fill g (fill f sh)) k (suc h))
Fixing-repaint t top ns x sh f g k h c d u distinct s e red_z red_u real =
    let z = node_of f in
    let w = node_of g in
    let red' = repaint t.red z u w in
    let (bal_f, cond_f, rest) = s.above in
    let red_w : t.red w ≡ false = (cond_f red_z).1 in
    let (bal_g, _, above_k) = rest in
    let bal_g1 : IsRedBlack t.red (other g) h = rw red_z at bal_g in
    let bal_g' : IsRedBlack t.red (fork c u d) h = rw e at bal_g1 in
    let above_k' : Above t.red k (suc h) = rw (red_z, red_w) at above_k in
    let p0 = nodes-Parted (f ∷ g ∷ k) sh (rw s.order distinct) in
    let p1 : Parted (g ∷ k) (fill f sh) =
      nodes-Parted (g ∷ k) (fill f sh) (rw (← plug-fill f (g ∷ k) sh, s.order) distinct) in
    let p2 : Parted k (fill g (fill f sh)) =
      nodes-Parted k (fill g (fill f sh))
        (rw (← plug-fill g k (fill f sh), ← plug-fill f (g ∷ k) sh, s.order) distinct) in
    let (unique_f, z_out) = Unique-fill f sh p1.below in
    let (unique_g, w_out) = Unique-fill g (fill f sh) p2.below in
    let (u_c, u_d, _, _, _) = rw e at unique_g in
    let in_g = λ (a : Ptr). ap (member a) e in
    let on_sh : (a : Ptr) → member a sh ≡ true → red' a ≡ t.red a =
      λ a i. ground (arith, p0.apart a, above-frame a f (g ∷ k), above-frame a g k, in_g a) in
    let on_f : (a : Ptr) → member a (other f) ≡ true → red' a ≡ t.red a =
      λ a i. ground (arith, p1.apart a, above-frame a g k, in_g a, member-fill a f sh) in
    let on_g : (a : Ptr) → member a (other g) ≡ true → (a == u) ≡ false → red' a ≡ t.red a =
      λ a i n. ground (arith, p1.apart a, above-frame a g k, member-fill a f sh) in
    let on_k : (a : Ptr) → above a k ≡ true → red' a ≡ t.red a =
      λ a i. ground (arith, p2.apart a, member-fill a g (fill f sh), member-fill a f sh, in_g a) in
    let is_z : red' z ≡ false =
      ground (arith, p1.upper, p1.apart w, above-frame w g k, member-fill w f sh) in
    let is_u : red' u ≡ false = ground (arith, w_out, in_g u) in
    let is_w : red' w ≡ true = ground arith in
    let (_, tree_z, around_z) = IsTree-fill t top x (t.parent x) f (g ∷ k) sh s.context s.tree in
    let (_, tree_w, around_w) = IsTree-fill t top z (t.parent z) g k (fill f sh) around_z tree_z in
    let bal_z =
      IsRedBlack-fill red' f sh h (IsRedBlack-frame t.red red' sh h on_sh s.balanced)
        (IsRedBlack-frame t.red red' (other f) h on_f bal_f) (λ i. absurd (ground arith)) in
    let bal_u : IsRedBlack red' (other g) (suc h) = rw e (
      blackened t.red red' c d u h bal_g' red_u is_u
        (λ a i. on_g a (ground (arith, in_g a)) (ground arith))
        (λ a i. on_g a (ground (arith, in_g a)) (ground arith))) in
    let bal_z' : IsRedBlack red' (fill f sh) (suc h) = rw is_z at bal_z in
    let bal_w =
      IsRedBlack-fill red' g (fill f sh) (suc h) bal_z' bal_u
        (λ i. (root_red-fill red' f sh ∙ is_z, rw e is_u)) in
    record {
      tree = IsTree-red t red' (t.parent w) w (fill g (fill f sh)) tree_w;
      context = IsContext-red t red' top w (t.parent w) k around_w;
      order = rw (← plug-fill g k (fill f sh), ← plug-fill f (g ∷ k) sh) s.order;
      red = root_red-fill red' g (fill f sh) ∙ is_w;
      balanced = rw is_w at bal_w;
      above = Above-frame t.red red' k (suc h) on_k above_k';
      root_black =
          RootBlack-frame t.red red' k on_k
            (RootBlack-up t.red g k (RootBlack-up t.red f (g ∷ k) s.root_black));
      sentinel = repaint_lem t.red z u w t.sentinel s.sentinel real;
    }
