-- ===== src/Rbtree/Insert.antt =====
-- The descent of `rbtree_insert_value` and `rbtree_insert_timer_value`.
use libcn.Prelude.{
  ℕ, zero, suc, ◌≤◌, ◌≡◌, refl, Ptr, Bool, true, false, some, arith, ◌==◌, if◌then◌else◌,
  Bool-cases, inl, inr,
}
use package.libcn.Rbtree.{Rbtree, set_left, set_right, insert_value}
use package.libcn.Rbtree.Shape.{Shape, leaf, fork, member, Unique, IsTree, height}
use package.libcn.Rbtree.Attach.{Inserted, attach, attach_left, attach_right, lift_left, lift_right}

-- The tree with `node` as a new leaf, to the left of the nodes to which it compares less.
abbrev pub grow : (ℕ → ℕ → Bool) → (Ptr → ℕ) → Ptr → Shape → Shape
grow less key node leaf = fork leaf node leaf
grow less key node (fork l x r) =
    if less (key node) (key x)
    then fork (grow less key node l) x r
    else fork l x (grow less key node r)

-- The result of the descent into a subtree.
abbrev Result : ℕ → (ℕ → ℕ → Bool) → Rbtree → (q p node : Ptr) → Shape → Shape → Type 0
Result fuel less t q p node sh sh' =
    (v : Rbtree) × (insert_value fuel less t p node ≡ some v) × Inserted t v q p node sh sh'

abbrev OnFork {ℓ} : Shape → Type ℓ → Type ℓ
OnFork leaf A = Unit
OnFork (fork l x r) A = A

go_left :
    (k : ℕ) (less : ℕ → ℕ → Bool) (t : Rbtree) (q p x node : Ptr) (l r : Shape)
    → less (t.key node) (t.key x) ≡ true
    → IsTree t q p (fork l x r)
    → Unique (fork l x r)
    → member node (fork l x r) ≡ false
    → (node == t.sentinel) ≡ false
    → OnFork l (Result k less t x (t.left x) node l (grow less t.key node l))
    → Result (suc k) less t q p node (fork l x r) (fork (grow less t.key node l) x r)
unfolding insert_value
go_left k less t q p x node leaf r below tree u out real ih =
    let last : (t.left x == t.sentinel) ≡ true = ground arith in
    let at_x = tree.0 in
    (
      attach (set_left t x node) x node,
      rw (at_x, below, last, insert_value) refl,
      attach_left t q p x node r tree u out real,
    )
go_left k less t q p x node (fork l y m) r below tree u out real (v, same, ins) =
    let more : (t.left x == t.sentinel) ≡ false = ground arith in
    let at_x = tree.0 in
    (
      v,
      rw (at_x, below, more, insert_value) same,
      lift_left t v q p x node (fork l y m) _ r tree u out ins,
    )

go_right :
    (k : ℕ) (less : ℕ → ℕ → Bool) (t : Rbtree) (q p x node : Ptr) (l r : Shape)
    → less (t.key node) (t.key x) ≡ false
    → IsTree t q p (fork l x r)
    → Unique (fork l x r)
    → member node (fork l x r) ≡ false
    → (node == t.sentinel) ≡ false
    → OnFork r (Result k less t x (t.right x) node r (grow less t.key node r))
    → Result (suc k) less t q p node (fork l x r) (fork l x (grow less t.key node r))
unfolding insert_value
go_right k less t q p x node l leaf below tree u out real ih =
    let last : (t.right x == t.sentinel) ≡ true = ground arith in
    let at_x = tree.0 in
    (
      attach (set_right t x node) x node,
      rw (at_x, below, last, insert_value) refl,
      attach_right t q p x node l tree u out real,
    )
go_right k less t q p x node l (fork m y r) below tree u out real (v, same, ins) =
    let more : (t.right x == t.sentinel) ≡ false = ground arith in
    let at_x = tree.0 in
    (
      v,
      rw (at_x, below, more, insert_value) same,
      lift_right t v q p x node l (fork m y r) _ tree u out ins,
    )

descend :
    (fuel : ℕ) (less : ℕ → ℕ → Bool) (t : Rbtree) (q p node : Ptr) (sh : Shape)
    → IsTree t q p sh
    → Unique sh
    → member node sh ≡ false
    → (node == t.sentinel) ≡ false
    → height sh ≤ fuel
    → OnFork sh (Result fuel less t q p node sh (grow less t.key node sh))
descend fuel less t q p node leaf tree u out real enough = tt
descend zero less t q p node (fork l x r) tree u out real enough = absurd (omega arith)
descend (suc k) less t q p node (fork l x r) tree u out real enough =
    let (_, _, _, lt, rt) = tree in
    let (_, _, _, lu, ru) = u in
    let on_left = descend k less t x (t.left x) node l lt lu (ground arith) real (omega arith) in
    let on_right = descend k less t x (t.right x) node r rt ru (ground arith) real (omega arith) in
    elim (Bool-cases (less (t.key node) (t.key x))) [
      | inl b ↦ rw b (go_left k less t q p x node l r b tree u out real on_left)
      | inr b ↦ rw b (go_right k less t q p x node l r b tree u out real on_right)
    ]

-- With fuel that is at least the height, the descent into a tree with unique nodes puts a new node,
-- which is not the sentinel,
-- where the search by `less` ends, as a red leaf; the tree has then the shape that `grow` gives, with
-- its parent links, and nothing else has changed.
pub insert_value-grow :
    (fuel : ℕ) (less : ℕ → ℕ → Bool) (t : Rbtree) (q p x node : Ptr) (l r : Shape)
    → IsTree t q p (fork l x r)
    → Unique (fork l x r)
    → member node (fork l x r) ≡ false
    → (node == t.sentinel) ≡ false
    → height (fork l x r) ≤ fuel
    → (v : Rbtree) × (insert_value fuel less t p node ≡ some v)
      × Inserted t v q p node (fork l x r) (grow less t.key node (fork l x r))
insert_value-grow fuel less t q p x node l r tree u out real enough =
    descend fuel less t q p node (fork l x r) tree u out real enough
