-- ===== src/Rbtree/Loop.antt =====
-- The loop of `rbtree_insert` ends, and leaves a red-black tree with the nodes in their order.
use mathlib.Core.Path.{subst}
use libcn.Prelude.{
  ℕ, zero, suc, ◌+◌, ◌<◌, ◌≡◌, refl, Ptr, true, false, List, [], ◌∷◌, arith, has, length, Distinct,
  sym, Bool-cases, inl, inr,
}
use package.libcn.Rbtree.{Rbtree}
use package.libcn.Rbtree.Shape.{Shape, leaf, fork}
use package.libcn.Rbtree.Context.{Frame, on_left, on_right}
use package.libcn.Rbtree.Zip.{node_of, other}
use package.libcn.Rbtree.Colour.{root_red}
use package.libcn.Rbtree.Fixing.{Fixing}
use package.libcn.Rbtree.Balance.{Rebalanced, stopped, Loop}
use package.libcn.Rbtree.Left.{left_repaint, left_outer, left_inner}
use package.libcn.Rbtree.Right.{right_repaint, right_outer, right_inner}

-- A round at a red parent and a black uncle, by the sides on which they are.
at_frames :
    (n : ℕ) (t : Rbtree) (top : Ptr) (ns : List Ptr) (x : Ptr) (a b : Shape) (f g : Frame)
    (k : List Frame) (h : ℕ)
    → Distinct ns
    → has top ns ≡ false
    → Fixing t top ns x (fork a x b) (f ∷ g ∷ k) h
    → t.red (node_of f) ≡ true
    → root_red t.red (other g) ≡ false
    → Rebalanced (suc (suc n)) t x top ns
at_frames n t top ns x a b (on_left z r) (on_left w u) k h distinct out s red_z black =
    left_outer n t top ns x z w (fork a x b) r u k h distinct out s red_z black
at_frames n t top ns x a b (on_right l z) (on_left w u) k h distinct out s red_z black =
    left_inner n t top ns x z w a b l u k h distinct out s red_z black
at_frames n t top ns x a b (on_left z r) (on_right u w) k h distinct out s red_z black =
    right_inner n t top ns x z w a b r u k h distinct out s red_z black
at_frames n t top ns x a b (on_right l z) (on_right u w) k h distinct out s red_z black =
    right_outer n t top ns x z w (fork a x b) l u k h distinct out s red_z black

turn :
    (n : ℕ) (t : Rbtree) (top : Ptr) (ns : List Ptr) (x : Ptr) (sh : Shape) (f g : Frame)
    (k : List Frame) (h : ℕ)
    → Distinct ns
    → has top ns ≡ false
    → Fixing t top ns x sh (f ∷ g ∷ k) h
    → t.red (node_of f) ≡ true
    → root_red t.red (other g) ≡ false
    → Rebalanced (suc (suc n)) t x top ns
turn n t top ns x leaf f g k h distinct out s red_z black = absurd (ground (arith, s.red))
turn n t top ns x (fork a y b) f g k h distinct out s red_z black =
    let (e, _, _, _, _) = s.tree in
    at_frames n t top ns x a b f g k h distinct out
      (subst (λ z. Fixing t top ns x (fork a z b) (f ∷ g ∷ k) h) (sym e) s) red_z black

-- A round at a red parent.
round :
    (n : ℕ) (t : Rbtree) (top : Ptr) (ns : List Ptr) (x : Ptr) (sh : Shape) (f g : Frame)
    (k : List Frame) (h : ℕ)
    → Distinct ns
    → has top ns ≡ false
    → Fixing t top ns x sh (f ∷ g ∷ k) h
    → t.red (node_of f) ≡ true
    → Loop (suc n) top ns
    → length k + 1 < suc n
    → Rebalanced (suc (suc n)) t x top ns
round n t top ns x sh f (on_left w leaf) k h distinct out s red_z loop lt =
    turn n t top ns x sh f (on_left w leaf) k h distinct out s red_z refl
round n t top ns x sh f (on_right leaf w) k h distinct out s red_z loop lt =
    turn n t top ns x sh f (on_right leaf w) k h distinct out s red_z refl
round n t top ns x sh f (on_left w (fork c u d)) k h distinct out s red_z loop lt =
    elim (Bool-cases (t.red u)) [
      | inl red_u ↦ left_repaint (suc n) t top ns x sh f w u c d k h distinct s red_z red_u loop lt
      | inr black ↦ turn n t top ns x sh f (on_left w (fork c u d)) k h distinct out s red_z black
    ]
round n t top ns x sh f (on_right (fork c u d) w) k h distinct out s red_z loop lt =
    elim (Bool-cases (t.red u)) [
      | inl red_u ↦ right_repaint (suc n) t top ns x sh f w u c d k h distinct s red_z red_u loop lt
      | inr black ↦ turn n t top ns x sh f (on_right (fork c u d) w) k h distinct out s red_z black
    ]

-- TODO
pub insert_fix-Rebalanced :
    (n : ℕ) (top : Ptr) (ns : List Ptr) → Distinct ns → has top ns ≡ false → Loop n top ns
insert_fix-Rebalanced zero top ns distinct out t x sh k h s lt = absurd (omega arith)
insert_fix-Rebalanced (suc n) top ns distinct out t x sh [] h s lt =
    stopped n t top ns x sh [] h s refl
insert_fix-Rebalanced (suc n) top ns distinct out t x sh (f ∷ []) h s lt =
    stopped n t top ns x sh (f ∷ []) h s s.root_black
insert_fix-Rebalanced (suc zero) top ns distinct out t x sh (f ∷ g ∷ k) h s lt =
    absurd (omega arith)
insert_fix-Rebalanced (suc (suc n)) top ns distinct out t x sh (f ∷ g ∷ k) h s lt =
    elim (Bool-cases (t.red (node_of f))) [
      | inl red_z ↦
          round n t top ns x sh f g k h distinct out s red_z
            (insert_fix-Rebalanced (suc n) top ns distinct out) (omega arith)
      | inr black ↦ stopped (suc n) t top ns x sh (f ∷ g ∷ k) h s black
    ]
