-- ===== src/Rbtree/Left.antt =====
-- The rounds of the loop of `rbtree_insert` where the parent is a left child.
use libcn.Prelude.{
  ℕ, suc, ◌+◌, ◌<◌, ◌≡◌, refl, Ptr, true, false, List, ◌∷◌, arith, has, length, Distinct, ◌==◌, ◌∙◌,
}
use package.libcn.Rbtree.{Rbtree, rbtree_left_rotate, rbtree_right_rotate}
use package.libcn.Rbtree.Shape.{Shape, fork}
use package.libcn.Rbtree.Context.{Frame, on_left, on_right}
use package.libcn.Rbtree.Zip.{node_of, fill, IsTree-fill, nodes-Parted}
use package.libcn.Rbtree.Colour.{root_red, red_of_link}
use package.libcn.Rbtree.Fixing.{Fixing, repaint, Fixing-repaint}
use package.libcn.Rbtree.Turn.{left_rotate-Painted, right_rotate-Painted, Fixing-left_rotate}
use package.libcn.Rbtree.Finish.{settle, Fixing-finish_left}
use package.libcn.Rbtree.Rounds
use package.libcn.Rbtree.Balance.{
  Rebalanced, reads, go_left, apart_link, Loop, next_round, last_round, at_left,
}

pub left_repaint :
    (n : ℕ) (t : Rbtree) (top : Ptr) (ns : List Ptr) (x : Ptr) (sh : Shape) (f : Frame) (w u : Ptr)
    (c d : Shape) (k : List Frame) (h : ℕ)
    → Distinct ns
    → Fixing t top ns x sh (f ∷ on_left w (fork c u d) ∷ k) h
    → t.red (node_of f) ≡ true
    → t.red u ≡ true
    → Loop n top ns
    → length k + 1 < n
    → Rebalanced (suc n) t x top ns
left_repaint n t top ns x sh f w u c d k h distinct s red_z red_u loop lt =
    let r = reads t top ns x sh f (on_left w (fork c u d)) k h distinct s red_z in
    let z = node_of f in
    let (_, _, around) =
      IsTree-fill t top x (t.parent x) f (on_left w (fork c u d) ∷ k) sh s.context s.tree in
    let (_, _, z_left, (link, _, _, _, _), _) = around in
    let t' = record t { red = repaint t.red z u w } in
    let s' =
      Fixing-repaint t top ns x sh f (on_left w (fork c u d)) k h c d u distinct s refl red_z red_u
        r.real in
    let round = Rounds.insert_fix_left-repaint t x z w r.up r.upper u link red_u in
    next_round n t t' x w top ns
      (go_left n t t' x w r.more (at_left t x z w r.up r.upper z_left) round) refl refl
      (loop t' w (fork (fill f sh) w (fork c u d)) k (suc h) s' (omega arith))

pub left_outer :
    (n : ℕ) (t : Rbtree) (top : Ptr) (ns : List Ptr) (x z w : Ptr) (sh r u : Shape) (k : List Frame)
    (h : ℕ)
    → Distinct ns
    → has top ns ≡ false
    → Fixing t top ns x sh (on_left z r ∷ on_left w u ∷ k) h
    → t.red z ≡ true
    → root_red t.red u ≡ false
    → Rebalanced (suc (suc n)) t x top ns
left_outer n t top ns x z w sh r u k h distinct out s red_z black_u =
    let m = reads t top ns x sh (on_left z r) (on_left w u) k h distinct s red_z in
    let p = nodes-Parted (on_left w u ∷ k) (fork sh z r) (rw s.order distinct) in
    let (_, _, apart, _, _) = p.below in
    let (_, _, x_left, r_tree, (_, _, z_left, u_tree, _)) = s.context in
    let black : t.red (t.right w) ≡ false =
      red_of_link t w (t.right w) u u_tree s.sentinel ∙ black_u in
    let far = apart_link t z (t.right z) x r r_tree m.x_real (apart x m.x_in) in
    let t1 = record t { red = settle t.red z w } in
    let v = rbtree_right_rotate t1 w in
    let c = right_rotate-Painted t1 w in
    let round = Rounds.insert_fix_left-outer t x z w m.up m.upper black far in
    last_round n t v x x top ns
      (go_left (suc n) t v x x m.more (at_left t x z w m.up m.upper z_left) round) c.key c.sentinel
      (Fixing-finish_left t top ns x z w sh r u k h distinct out s red_z black_u)

pub left_inner :
    (n : ℕ) (t : Rbtree) (top : Ptr) (ns : List Ptr) (x z w : Ptr) (a b l u : Shape)
    (k : List Frame) (h : ℕ)
    → Distinct ns
    → has top ns ≡ false
    → Fixing t top ns x (fork a x b) (on_right l z ∷ on_left w u ∷ k) h
    → t.red z ≡ true
    → root_red t.red u ≡ false
    → Rebalanced (suc (suc n)) t x top ns
left_inner n t top ns x z w a b l u k h distinct out s red_z black_u =
    let m = reads t top ns x (fork a x b) (on_right l z) (on_left w u) k h distinct s red_z in
    let (_, _, x_right, _, (_, _, z_left, u_tree, _)) = s.context in
    let black : t.red (t.right w) ≡ false =
      red_of_link t w (t.right w) u u_tree s.sentinel ∙ black_u in
    let near : (x == t.right z) ≡ true = ground arith in
    let t1 = rbtree_left_rotate t z in
    let c1 = left_rotate-Painted t z in
    let s1 = Fixing-left_rotate t top ns x z a b l (on_left w u ∷ k) h distinct out s red_z in
    let (back, _, _, _, (up1, _, _, _, _)) = s1.context in
    let red_x1 : t1.red x ≡ true = rw c1.red s.red in
    let black_u1 : root_red t1.red u ≡ false = rw c1.red black_u in
    let t2 = record t1 { red = settle t1.red x w } in
    let v = rbtree_right_rotate t2 w in
    let c = right_rotate-Painted t2 w in
    let round = Rounds.insert_fix_left-inner t x z w m.up m.upper black near back up1 in
    last_round n t v x z top ns
      (go_left (suc n) t v x z m.more (at_left t x z w m.up m.upper z_left) round) (c.key ∙ c1.key)
      (c.sentinel ∙ c1.sentinel)
      (Fixing-finish_left t1 top ns z x w (fork l z a) b u k h distinct out s1 red_x1 black_u1)
