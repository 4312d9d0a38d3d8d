-- ===== src/Rbtree/Height.antt =====
-- The height of a red-black tree, by the number of its nodes.
use native.Mathlib.Nat.{two-pow-succ, pow-le-pow_right, mul-le-mul}
use libcn.Prelude.{
  ℕ, zero, suc, ◌+◌, ◌*◌, ◌^◌, ◌≤◌, ◌<◌, ◌≡◌, refl, Ptr, Bool, true, false, ◌∷◌, arith, length,
  length-append, if◌then◌else◌, Bool-cases, inl, inr, leb,
}
use package.libcn.Rbtree.Shape.{Shape, leaf, fork, nodes, height}
use package.libcn.Rbtree.Colour.{root_red, IsRedBlack}

abbrev one_if : Bool → ℕ
one_if b = if b then 1 else 0

one_if_lem : (b : Bool) → one_if b ≤ 1
one_if_lem true = omega arith
one_if_lem false = omega arith

height_lem :
    (red : Ptr → Bool) (sh : Shape) (h : ℕ)
    → IsRedBlack red sh h
    → height sh ≤ h + h + one_if (root_red red sh)
height_lem red leaf h e = omega arith
height_lem red (fork l x r) h (m, e, bl, br, c) =
    let il = height_lem red l m bl in
    let ir = height_lem red r m br in
    elim (Bool-cases (red x)) [
      | inl i ↦
          let (cl, cr) = c i in
          let il' : height l ≤ m + m + 0 = rw cl at il in
          let ir' : height r ≤ m + m + 0 = rw cr at ir in rw (e, i) (omega (arith, il', ir'))
      | inr i ↦
          let ol = one_if_lem (root_red red l) in
          let or = one_if_lem (root_red red r) in rw (e, i) (omega (arith, il, ir, ol, or))
    ]

nodes_lem :
    (red : Ptr → Bool) (sh : Shape) (h : ℕ) → IsRedBlack red sh h → 2 ^ h ≤ suc (length (nodes sh))
nodes_lem red leaf h e = rw e (omega arith)
nodes_lem red (fork l x r) h (m, e, bl, br, c) =
    let il = nodes_lem red l m bl in
    let ir = nodes_lem red r m br in
    let total = length-append (nodes l) (x ∷ nodes r) in
    elim (Bool-cases (red x)) [
      | inl i ↦ rw (e, i) (omega (arith, total, il))
      | inr i ↦ rw (e, i) (omega (arith, total, il, ir, two-pow-succ m))
    ]

doubled : (n : ℕ) → 2 ^ (n + n) ≡ 2 ^ n * 2 ^ n
doubled zero = refl
doubled (suc n) =
    let e : suc n + suc n ≡ suc (suc (n + n)) = omega arith in
    rw (e, two-pow-succ (suc (n + n)), two-pow-succ (n + n), doubled n, two-pow-succ n)
      (grind arith)

-- A tree with a black root has at most `2 log (n + 1)` levels, for `n` nodes.
pub height-length :
    (red : Ptr → Bool) (sh : Shape) (h : ℕ)
    → IsRedBlack red sh h
    → root_red red sh ≡ false
    → 2 ^ height sh ≤ suc (length (nodes sh)) * suc (length (nodes sh))
height-length red sh h b black =
    let tall : height sh ≤ h + h + 0 = rw black at (height_lem red sh h b) in
    let many = nodes_lem red sh h b in
    let squared = mul-le-mul many many in
    let grows : 2 ^ height sh ≤ 2 ^ (h + h) =
      pow-le-pow_right (omega arith) (omega (arith, tall)) in
    omega (arith, grows, doubled h, squared)

-- Fuel beyond the logarithm is above the height.
pub fuel_lem :
    (red : Ptr → Bool) (sh : Shape) (h fuel : ℕ)
    → IsRedBlack red sh h
    → root_red red sh ≡ false
    → suc (length (nodes sh)) * suc (length (nodes sh)) < 2 ^ fuel
    → height sh < fuel
fuel_lem red sh h fuel b black lt = elim (Bool-cases (leb fuel (height sh))) [
  | inl e ↦
      let le : 2 ^ fuel ≤ 2 ^ height sh = pow-le-pow_right (omega arith) (ground arith) in
      absurd (omega (arith, le, height-length red sh h b black))
  | inr e ↦ ground arith
]
