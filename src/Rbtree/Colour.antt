-- ===== src/Rbtree/Colour.antt =====
-- The red-black conditions of a tree, and of the tree around a subtree.
use libcn.Prelude.{
  ℕ, suc, ◌≡◌, refl, Ptr, Bool, true, false, List, [], ◌∷◌, arith, ◌==◌, ◌||◌, if◌then◌else◌, ◌∙◌,
  ap, sym,
}
use package.libcn.Rbtree.{Rbtree}
use package.libcn.Rbtree.Shape.{Shape, leaf, fork, member, IsTree}
use package.libcn.Rbtree.Context.{Frame, on_left, on_right, plug, above}
use package.libcn.Rbtree.Zip.{node_of, other, fill, plug-fill}

abbrev pub root_red : (Ptr → Bool) → Shape → Bool
root_red red leaf = false
root_red red (fork l x r) = red x

abbrev pub grown : Bool → ℕ → ℕ
grown is_red h = if is_red then h else suc h

-- Every way down passes `h` black nodes, and no red node has a red child.
abbrev pub IsRedBlack : (Ptr → Bool) → Shape → ℕ → Type 0
IsRedBlack red leaf h = h ≡ 0
IsRedBlack red (fork l x r) h =
    (m : ℕ) × (h ≡ grown (red x) m)
    × IsRedBlack red l m
    × IsRedBlack red r m
    × (red x ≡ true → (root_red red l ≡ false) × (root_red red r ≡ false))

abbrev pub top_red : (Ptr → Bool) → List Frame → Bool
top_red red [] = false
top_red red (f ∷ k) = red (node_of f)

-- The same for the nodes above a subtree that has `h` black nodes on every way down, but for the
-- colour of the subtree's root.
abbrev pub Above : (Ptr → Bool) → List Frame → ℕ → Type 0
Above red [] h = Unit
Above red (f ∷ k) h =
    IsRedBlack red (other f) h
    × (red (node_of f) ≡ true → (root_red red (other f) ≡ false) × (top_red red k ≡ false))
    × Above red k (grown (red (node_of f)) h)

pub IsRedBlack-fill :
    (red : Ptr → Bool) (f : Frame) (sh : Shape) (h : ℕ)
    → IsRedBlack red sh h
    → IsRedBlack red (other f) h
    → (red (node_of f) ≡ true → (root_red red sh ≡ false) × (root_red red (other f) ≡ false))
    → IsRedBlack red (fill f sh) (grown (red (node_of f)) h)
IsRedBlack-fill red (on_left x r) sh h s o c = (h, refl, s, o, c)
IsRedBlack-fill red (on_right l x) sh h s o c = (h, refl, o, s, λ e. ((c e).1, (c e).0))

pub root_red-fill :
    (red : Ptr → Bool) (f : Frame) (sh : Shape) → root_red red (fill f sh) ≡ red (node_of f)
root_red-fill red (on_left x r) sh = refl
root_red-fill red (on_right l x) sh = refl

pub IsRedBlack-plug :
    (red : Ptr → Bool) (k : List Frame) (sh : Shape) (h : ℕ)
    → IsRedBlack red sh h
    → Above red k h
    → (root_red red sh ≡ true → top_red red k ≡ false)
    → (m : ℕ) × IsRedBlack red (plug k sh) m
IsRedBlack-plug red [] sh h s a c = (h, s)
IsRedBlack-plug red (f ∷ k) sh h s (o, b, a) c =
    let black_below : red (node_of f) ≡ true → root_red red sh ≡ false = λ e. ground (arith, c) in
    rw (plug-fill f k sh) (
      IsRedBlack-plug red k (fill f sh) (grown (red (node_of f)) h)
        (IsRedBlack-fill red f sh h s o (λ e. (black_below e, (b e).0))) a
        (λ e. (b (sym (root_red-fill red f sh) ∙ e)).1))

pub root_red-frame :
    (red red' : Ptr → Bool) (sh : Shape)
    → ((a : Ptr) → member a sh ≡ true → red' a ≡ red a)
    → root_red red' sh ≡ root_red red sh
root_red-frame red red' leaf same = refl
root_red-frame red red' (fork l x r) same = same x (ground arith)

pub IsRedBlack-frame :
    (red red' : Ptr → Bool) (sh : Shape) (h : ℕ)
    → ((a : Ptr) → member a sh ≡ true → red' a ≡ red a)
    → IsRedBlack red sh h
    → IsRedBlack red' sh h
IsRedBlack-frame red red' leaf h same b = b
IsRedBlack-frame red red' (fork l x r) h same (m, e, bl, br, c) =
    let same_x = same x (ground arith) in
    let same_l = root_red-frame red red' l (λ a i. same a (ground arith)) in
    let same_r = root_red-frame red red' r (λ a i. same a (ground arith)) in
    (
      m,
      rw same_x e,
      IsRedBlack-frame red red' l m (λ a i. same a (ground arith)) bl,
      IsRedBlack-frame red red' r m (λ a i. same a (ground arith)) br,
      λ d. (same_l ∙ (c (sym same_x ∙ d)).0, same_r ∙ (c (sym same_x ∙ d)).1),
    )

other-above :
    (a : Ptr) (f : Frame) (k : List Frame)
    → above a (f ∷ k) ≡ (a == node_of f || (member a (other f) || above a k))
other-above a (on_left x r) k = refl
other-above a (on_right l x) k = refl

pub top_red-frame :
    (red red' : Ptr → Bool) (k : List Frame)
    → ((a : Ptr) → above a k ≡ true → red' a ≡ red a)
    → top_red red' k ≡ top_red red k
top_red-frame red red' [] same = refl
top_red-frame red red' (f ∷ k) same = same (node_of f) (ground (arith, other-above (node_of f) f k))

pub Above-frame :
    (red red' : Ptr → Bool) (k : List Frame) (h : ℕ)
    → ((a : Ptr) → above a k ≡ true → red' a ≡ red a)
    → Above red k h
    → Above red' k h
Above-frame red red' [] h same a = tt
Above-frame red red' (f ∷ k) h same (o, b, a) =
    let same_x = same (node_of f) (ground (arith, other-above (node_of f) f k)) in
    let on_other =
      λ (d : Ptr) (i : member d (other f) ≡ true). same d (ground (arith, other-above d f k)) in
    let on_above = λ (d : Ptr) (i : above d k ≡ true). same d (ground (arith, other-above d f k)) in
    let same_o = root_red-frame red red' (other f) on_other in
    let same_t = top_red-frame red red' k on_above in
    (
      IsRedBlack-frame red red' (other f) h on_other o,
      λ d. (same_o ∙ (b (sym same_x ∙ d)).0, same_t ∙ (b (sym same_x ∙ d)).1),
      rw same_x (Above-frame red red' k (grown (red (node_of f)) h) on_above a),
    )

-- The colour of the node to which a link leads, where the sentinel is black.
pub red_of_link :
    (t : Rbtree) (q p : Ptr) (sh : Shape)
    → IsTree t q p sh
    → t.red t.sentinel ≡ false
    → t.red p ≡ root_red t.red sh
red_of_link t q p leaf e b = rw e b
red_of_link t q p (fork l x r) (e, _, _, _, _) b = ap t.red e
