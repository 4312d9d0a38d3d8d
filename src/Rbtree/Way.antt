-- ===== src/Rbtree/Way.antt =====
-- The way of the descent of `rbtree_insert_value`, from the new leaf up to the root.
use mathlib.Core.Path.{subst}
use libcn.Prelude.{
  ℕ, ◌+◌, ◌≤◌, ◌≡◌, refl, Ptr, Bool, true, false, List, [], ◌∷◌, arith, length, if◌then◌else◌, sym,
  Bool-cases, inl, inr,
}
use package.libcn.Rbtree.{Rbtree}
use package.libcn.Rbtree.Shape.{Shape, leaf, fork, IsTree, height}
use package.libcn.Rbtree.Insert.{grow}
use package.libcn.Rbtree.Context.{Frame, on_left, on_right, plug, IsContext}
use package.libcn.Rbtree.Colour.{root_red, IsRedBlack, top_red, Above}
use package.libcn.Rbtree.Fixing.{RootBlack}

-- The frames that `grow` passes in `sh`, on top of those above it.
abbrev pub way : (ℕ → ℕ → Bool) → (Ptr → ℕ) → Ptr → Shape → List Frame → List Frame
way less key node leaf k = k
way less key node (fork l x r) k =
    if less (key node) (key x)
    then way less key node l (on_left x r ∷ k)
    else way less key node r (on_right l x ∷ k)

module _ (less : ℕ → ℕ → Bool) (key : Ptr → ℕ) (node : Ptr) where
  pub plug-way :
      (sh : Shape) (k : List Frame)
      → plug (way less key node sh k) (fork leaf node leaf) ≡ plug k (grow less key node sh)
  plug-way leaf k = refl
  plug-way (fork l x r) k = elim (Bool-cases (less (key node) (key x))) [
    | inl b ↦ rw b (plug-way l (on_left x r ∷ k))
    | inr b ↦ rw b (plug-way r (on_right l x ∷ k))
  ]

  pub Above-way :
      (red : Ptr → Bool) (sh : Shape) (k : List Frame) (h : ℕ)
      → IsRedBlack red sh h
      → Above red k h
      → (root_red red sh ≡ true → top_red red k ≡ false)
      → Above red (way less key node sh k) 0
  Above-way red leaf k h e a c = rw e at a
  Above-way red (fork l x r) k h (m, e, bl, br, b) a c =
      let a' = rw e at a in
      elim (Bool-cases (less (key node) (key x))) [
        | inl d ↦ rw d (
            Above-way red l (on_left x r ∷ k) m bl (br, λ i. ((b i).1, c i), a')
              (λ i. ground (arith, b)))
        | inr d ↦ rw d (
            Above-way red r (on_right l x ∷ k) m br (bl, λ i. ((b i).0, c i), a')
              (λ i. ground (arith, b)))
      ]

  RootBlack-way_up :
      (red : Ptr → Bool) (sh : Shape) (f : Frame) (k : List Frame)
      → RootBlack red (f ∷ k)
      → RootBlack red (way less key node sh (f ∷ k))
  RootBlack-way_up red leaf f k b = b
  RootBlack-way_up red (fork l x r) f k b = elim (Bool-cases (less (key node) (key x))) [
    | inl d ↦ rw d (RootBlack-way_up red l (on_left x r) (f ∷ k) b)
    | inr d ↦ rw d (RootBlack-way_up red r (on_right l x) (f ∷ k) b)
  ]

  pub RootBlack-way :
      (red : Ptr → Bool) (sh : Shape)
      → root_red red sh ≡ false
      → RootBlack red (way less key node sh [])
  RootBlack-way red leaf b = tt
  RootBlack-way red (fork l x r) b = elim (Bool-cases (less (key node) (key x))) [
    | inl d ↦ rw d (RootBlack-way_up red l (on_left x r) [] b)
    | inr d ↦ rw d (RootBlack-way_up red r (on_right l x) [] b)
  ]

  pub length-way :
      (sh : Shape) (k : List Frame) → length (way less key node sh k) ≤ length k + height sh
  length-way leaf k = omega arith
  length-way (fork l x r) k = elim (Bool-cases (less (key node) (key x))) [
    | inl d ↦ rw d (omega (arith, length-way l (on_left x r ∷ k)))
    | inr d ↦ rw d (omega (arith, length-way r (on_right l x ∷ k)))
  ]

-- A whole tree is a subtree and what is around it.
pub IsTree-unplug :
    (t : Rbtree) (top : Ptr) (k : List Frame) (sh : Shape)
    → IsTree t top t.root (plug k sh)
    → (p : Ptr) × (q : Ptr) × IsContext t top p q k × IsTree t q p sh
IsTree-unplug t top [] sh tree = (t.root, top, (refl, refl), tree)
IsTree-unplug t top (on_left x r ∷ k) sh tree =
    let (p, q, c, (e, n, b, lt, rt)) = IsTree-unplug t top k (fork sh x r) tree in
    (
      t.left x,
      x,
      (
        refl,
        n,
        refl,
        rt,
        subst (λ y. IsContext t top x y k) (sym b) (subst (λ y. IsContext t top y q k) e c),
      ),
      lt,
    )
IsTree-unplug t top (on_right l x ∷ k) sh tree =
    let (p, q, c, (e, n, b, lt, rt)) = IsTree-unplug t top k (fork l x sh) tree in
    (
      t.right x,
      x,
      (
        refl,
        n,
        refl,
        lt,
        subst (λ y. IsContext t top x y k) (sym b) (subst (λ y. IsContext t top y q k) e c),
      ),
      rt,
    )
