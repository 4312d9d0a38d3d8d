-- ===== src/Rbtree/Right.antt =====
-- The rounds of the loop of `rbtree_insert` where the parent is a right child.
use libcn.Prelude.{
  ℕ, suc, ◌+◌, ◌<◌, ◌≡◌, refl, Ptr, true, false, List, ◌∷◌, arith, has, length, Distinct, ◌==◌, ◌∙◌,
}
use package.libcn.Rbtree.{Rbtree, rbtree_left_rotate, rbtree_right_rotate}
use package.libcn.Rbtree.Shape.{Shape, fork, member, IsTree}
use package.libcn.Rbtree.Context.{Frame, on_left, on_right}
use package.libcn.Rbtree.Zip.{node_of, fill, plug-fill, IsTree-fill, nodes-Parted}
use package.libcn.Rbtree.Colour.{root_red, red_of_link}
use package.libcn.Rbtree.Fixing.{Fixing, member-fill, repaint, Fixing-repaint}
use package.libcn.Rbtree.Turn.{left_rotate-Painted, right_rotate-Painted, Fixing-right_rotate}
use package.libcn.Rbtree.Finish.{settle, Fixing-finish_right}
use package.libcn.Rbtree.Rounds
use package.libcn.Rbtree.Balance.{
  Rebalanced, reads, go_right, apart_link, Loop, next_round, last_round, at_right,
}

-- A node on the right is not the one to which the left link leads.
z_apart :
    (t : Rbtree) (top : Ptr) (ns : List Ptr) (x : Ptr) (sh : Shape) (f : Frame) (w : Ptr)
    (u : Shape) (k : List Frame) (h : ℕ)
    → Distinct ns
    → Fixing t top ns x sh (f ∷ on_right u w ∷ k) h
    → (node_of f == t.left w) ≡ false
z_apart t top ns x sh f w u k h distinct s =
    let g = on_right u w in
    let (_, tree_z, around) = IsTree-fill t top x (t.parent x) f (g ∷ k) sh s.context s.tree in
    let (_, _, _, u_tree, _) = around in
    let p =
      nodes-Parted k (fork u w (fill f sh))
        (rw (← plug-fill g k (fill f sh), ← plug-fill f (g ∷ k) sh, s.order) distinct) in
    let (_, _, apart, _, _) = p.below in
    let out : member (node_of f) u ≡ false =
      ground (arith, apart (node_of f), member-fill (node_of f) f sh) in
    apart_link t w (t.left w) (node_of f) u u_tree (real f tree_z) out
  where
    real :
        (f' : Frame)
        → IsTree t (t.parent (node_of f')) (node_of f') (fill f' sh)
        → (node_of f' == t.sentinel) ≡ false
    real (on_left z r) (_, n, _, _, _) = n
    real (on_right l z) (_, n, _, _, _) = n

pub right_repaint :
    (n : ℕ) (t : Rbtree) (top : Ptr) (ns : List Ptr) (x : Ptr) (sh : Shape) (f : Frame) (w u : Ptr)
    (c d : Shape) (k : List Frame) (h : ℕ)
    → Distinct ns
    → Fixing t top ns x sh (f ∷ on_right (fork c u d) w ∷ k) h
    → t.red (node_of f) ≡ true
    → t.red u ≡ true
    → Loop n top ns
    → length k + 1 < n
    → Rebalanced (suc n) t x top ns
right_repaint n t top ns x sh f w u c d k h distinct s red_z red_u loop lt =
    let r = reads t top ns x sh f (on_right (fork c u d) w) k h distinct s red_z in
    let z = node_of f in
    let (_, tree_z, around) =
      IsTree-fill t top x (t.parent x) f (on_right (fork c u d) w ∷ k) sh s.context s.tree in
    let (_, _, _, u_tree, _) = around in
    let link = u_tree.0 in
    let far = z_apart t top ns x sh f w (fork c u d) k h distinct s in
    let t' = record t { red = repaint t.red z u w } in
    let s' =
      Fixing-repaint t top ns x sh f (on_right (fork c u d) w) k h c d u distinct s refl red_z red_u
        r.real in
    let round = Rounds.insert_fix_right-repaint t x z w r.up r.upper u link red_u in
    next_round n t t' x w top ns
      (go_right n t t' x w r.more (at_right t x z w r.up r.upper far) round) refl refl
      (loop t' w (fork (fork c u d) w (fill f sh)) k (suc h) s' (omega arith))

pub right_outer :
    (n : ℕ) (t : Rbtree) (top : Ptr) (ns : List Ptr) (x z w : Ptr) (sh r u : Shape) (k : List Frame)
    (h : ℕ)
    → Distinct ns
    → has top ns ≡ false
    → Fixing t top ns x sh (on_right r z ∷ on_right u w ∷ k) h
    → t.red z ≡ true
    → root_red t.red u ≡ false
    → Rebalanced (suc (suc n)) t x top ns
right_outer n t top ns x z w sh r u k h distinct out s red_z black_u =
    let m = reads t top ns x sh (on_right r z) (on_right u w) k h distinct s red_z in
    let p = nodes-Parted (on_right u w ∷ k) (fork r z sh) (rw s.order distinct) in
    let (_, _, apart, _, _) = p.below in
    let (_, _, x_right, r_tree, (_, _, _, u_tree, _)) = s.context in
    let black : t.red (t.left w) ≡ false =
      red_of_link t w (t.left w) u u_tree s.sentinel ∙ black_u in
    let x_out : member x r ≡ false = ground (arith, apart x, m.x_in) in
    let far = apart_link t z (t.left z) x r r_tree m.x_real x_out in
    let side = z_apart t top ns x sh (on_right r z) w u k h distinct s in
    let t1 = record t { red = settle t.red z w } in
    let v = rbtree_left_rotate t1 w in
    let c = left_rotate-Painted t1 w in
    let round = Rounds.insert_fix_right-outer t x z w m.up m.upper black far in
    last_round n t v x x top ns
      (go_right (suc n) t v x x m.more (at_right t x z w m.up m.upper side) round) c.key c.sentinel
      (Fixing-finish_right t top ns x z w sh r u k h distinct out s red_z black_u)

pub right_inner :
    (n : ℕ) (t : Rbtree) (top : Ptr) (ns : List Ptr) (x z w : Ptr) (a b r u : Shape)
    (k : List Frame) (h : ℕ)
    → Distinct ns
    → has top ns ≡ false
    → Fixing t top ns x (fork a x b) (on_left z r ∷ on_right u w ∷ k) h
    → t.red z ≡ true
    → root_red t.red u ≡ false
    → Rebalanced (suc (suc n)) t x top ns
right_inner n t top ns x z w a b r u k h distinct out s red_z black_u =
    let m = reads t top ns x (fork a x b) (on_left z r) (on_right u w) k h distinct s red_z in
    let (_, _, x_left, _, (_, _, _, u_tree, _)) = s.context in
    let black : t.red (t.left w) ≡ false =
      red_of_link t w (t.left w) u u_tree s.sentinel ∙ black_u in
    let near : (x == t.left z) ≡ true = ground arith in
    let side = z_apart t top ns x (fork a x b) (on_left z r) w u k h distinct s in
    let t1 = rbtree_right_rotate t z in
    let c1 = right_rotate-Painted t z in
    let s1 = Fixing-right_rotate t top ns x z a b r (on_right u w ∷ k) h distinct out s red_z in
    let (back, _, _, _, (up1, _, _, _, _)) = s1.context in
    let red_x1 : t1.red x ≡ true = rw c1.red s.red in
    let black_u1 : root_red t1.red u ≡ false = rw c1.red black_u in
    let t2 = record t1 { red = settle t1.red x w } in
    let v = rbtree_left_rotate t2 w in
    let c = left_rotate-Painted t2 w in
    let round = Rounds.insert_fix_right-inner t x z w m.up m.upper black near back up1 in
    last_round n t v x z top ns
      (go_right (suc n) t v x z m.more (at_right t x z w m.up m.upper side) round) (c.key ∙ c1.key)
      (c.sentinel ∙ c1.sentinel)
      (Fixing-finish_right t1 top ns z x w (fork b z r) a u k h distinct out s1 red_x1 black_u1)
