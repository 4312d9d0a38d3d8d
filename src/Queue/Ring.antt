-- ===== src/Queue/Ring.antt =====
-- What a queue stands for: the nodes that lie between the sentinel and itself, in order.
use libcn.Prelude.{
  ◌≡◌, refl, ◌⊎◌, inl, inr, Ptr, true, false, List, [], ◌∷◌, ◌++◌, arith, has, has-append, Distinct,
}
use package.libcn.Queue.{Links}

-- From `p` the `next` links lead through `xs` to `q`, and the `prev` links lead back.
abbrev pub Chain : Links → Ptr → List Ptr → Ptr → Type 0
Chain l p [] q = (l.next p ≡ q) × (l.prev q ≡ p)
Chain l p (x ∷ xs) q = (l.next p ≡ x) × (l.prev x ≡ p) × Chain l x xs q

-- The queue through the sentinel `h` holds the nodes `xs`, each once.
pub record Ring (l : Links) (h : Ptr) (xs : List Ptr) : Type 0 where
  pub chain : Chain l h xs h
  pub distinct : Distinct (h ∷ xs)

-- A chain reads `next` at its start and its nodes, and `prev` at its nodes and its end.
pub frame :
    (l g : Links) (p : Ptr) (xs : List Ptr) (q : Ptr)
    → Chain l p xs q
    → ((a : Ptr) → has a (p ∷ xs) ≡ true → g.next a ≡ l.next a)
    → ((a : Ptr) → has a (q ∷ xs) ≡ true → g.prev a ≡ l.prev a)
    → Chain g p xs q
frame l g p [] q c n b = ground (arith, n p, b q)
frame l g p (x ∷ xs) q (e, f, c) n b = (
  ground (arith, n p),
  ground (arith, b x),
  frame l g x xs q c (λ a i. ground (arith, n a)) (λ a i. ground (arith, b a)),
)

pub split :
    (l : Links) (p : Ptr) (xs : List Ptr) (x : Ptr) (ys : List Ptr) (q : Ptr)
    → Chain l p (xs ++ x ∷ ys) q
    → Chain l p xs x × Chain l x ys q
split l p [] x ys q (e, f, c) = ((e, f), c)
split l p (y ∷ xs) x ys q (e, f, c) = let (a, b) = split l y xs x ys q c in ((e, f, a), b)

pub join :
    (l : Links) (p : Ptr) (xs : List Ptr) (x : Ptr) (ys : List Ptr) (q : Ptr)
    → Chain l p xs x
    → Chain l x ys q
    → Chain l p (xs ++ x ∷ ys) q
join l p [] x ys q (e, f) c = (e, f, c)
join l p (y ∷ xs) x ys q (e, f, a) c = (e, f, join l y xs x ys q a c)

-- The end of a chain points back into it.
pub last-mem :
    (l : Links) (p : Ptr) (xs : List Ptr) (q : Ptr)
    → Chain l p xs q
    → has (l.prev q) (p ∷ xs) ≡ true
last-mem l p [] q c = ground arith
last-mem l p (x ∷ xs) q (e, f, c) = ground (arith, last-mem l x xs q c)

pub Distinct-append_right : (xs ys : List Ptr) → Distinct (xs ++ ys) → Distinct ys
Distinct-append_right [] ys d = d
Distinct-append_right (x ∷ xs) ys (e, d) = Distinct-append_right xs ys d

pub Distinct-append_left : (xs ys : List Ptr) → Distinct (xs ++ ys) → Distinct xs
Distinct-append_left [] ys d = tt
Distinct-append_left (x ∷ xs) ys (e, d) =
    (ground (arith, has-append x xs ys), Distinct-append_left xs ys d)

-- A node of the front is none of the back.
pub Distinct-apart :
    (xs ys : List Ptr) (a : Ptr) → Distinct (xs ++ ys) → has a xs ≡ true → has a ys ≡ false
Distinct-apart [] ys a d i = ground arith
Distinct-apart (x ∷ xs) ys a (e, d) i = ground (arith, has-append x xs ys, Distinct-apart xs ys a d)

pub Distinct-insert :
    (xs : List Ptr) (x : Ptr) (ys : List Ptr)
    → Distinct (xs ++ ys)
    → has x (xs ++ ys) ≡ false
    → Distinct (xs ++ x ∷ ys)
Distinct-insert [] x ys d o = (o, d)
Distinct-insert (y ∷ xs) x ys (e, d) o = (
  ground (arith, has-append y xs ys, has-append y xs (x ∷ ys)),
  Distinct-insert xs x ys d (ground arith),
)

pub Distinct-delete :
    (xs : List Ptr) (x : Ptr) (ys : List Ptr)
    → Distinct (xs ++ x ∷ ys)
    → Distinct (xs ++ ys) × (has x (xs ++ ys) ≡ false)
Distinct-delete [] x ys (e, d) = (d, e)
Distinct-delete (y ∷ xs) x ys (e, d) =
    let (a, b) = Distinct-delete xs x ys d in
    (
      (ground (arith, has-append y xs ys, has-append y xs (x ∷ ys)), a),
      ground (arith, has-append y xs (x ∷ ys)),
    )

pub snoc-cases : (xs : List Ptr) → (xs ≡ []) ⊎ ((ys : List Ptr) × (y : Ptr) × (xs ≡ ys ++ y ∷ []))
snoc-cases [] = inl refl
snoc-cases (x ∷ xs) = elim (snoc-cases xs) [
  | inl e ↦ inr ([], x, rw e)
  | inr (ys, y, e) ↦ inr (x ∷ ys, y, rw e)
]

-- The first link of a chain leads into it or to its end.
pub first-mem :
    (l : Links) (p : Ptr) (xs : List Ptr) (q : Ptr)
    → Chain l p xs q
    → has (l.next p) (q ∷ xs) ≡ true
first-mem l p [] q c = ground arith
first-mem l p (x ∷ xs) q c = ground arith

-- What distinctness says of a ring that is cut at a node.
pub record Cut (h : Ptr) (xs : List Ptr) (p : Ptr) (ys : List Ptr) : Type 0 where
  pub ne : has h (p ∷ []) ≡ false
  pub head_front : has h xs ≡ false
  pub head_back : has h ys ≡ false
  pub node_front : has p xs ≡ false
  pub node_back : has p ys ≡ false
  pub front : Distinct xs
  pub back : Distinct ys
  pub apart : (a : Ptr) → has a xs ≡ true → has a ys ≡ false

pub cut :
    (h : Ptr) (xs : List Ptr) (p : Ptr) (ys : List Ptr)
    → Distinct (h ∷ xs ++ p ∷ ys)
    → Cut h xs p ys
cut h xs p ys (e, d) =
    let (e', d') = Distinct-delete xs p ys d in
    let back = Distinct-append_right xs (p ∷ ys) d in
    record {
      ne = ground (arith, has-append h xs (p ∷ ys));
      head_front = ground (arith, has-append h xs (p ∷ ys));
      head_back = ground (arith, has-append h xs (p ∷ ys));
      node_front = ground (arith, has-append p xs ys);
      node_back = ground (arith, has-append p xs ys);
      front = Distinct-append_left xs (p ∷ ys) d;
      back = back.1;
      apart = λ a i. ground (arith, Distinct-apart xs (p ∷ ys) a d);
    }

pub Distinct-insert_after :
    (xs : List Ptr) (p x : Ptr) (ys : List Ptr)
    → Distinct (xs ++ p ∷ ys)
    → has x (xs ++ p ∷ ys) ≡ false
    → Distinct (xs ++ p ∷ x ∷ ys)
Distinct-insert_after [] p x ys d o = ground arith
Distinct-insert_after (y ∷ xs) p x ys (e, d) o = (
  ground (arith, has-append y xs (p ∷ ys), has-append y xs (p ∷ x ∷ ys)),
  Distinct-insert_after xs p x ys d (ground arith),
)

pub Distinct-delete_after :
    (xs : List Ptr) (p x : Ptr) (ys : List Ptr)
    → Distinct (xs ++ p ∷ x ∷ ys)
    → Distinct (xs ++ p ∷ ys)
Distinct-delete_after [] p x ys d = ground arith
Distinct-delete_after (y ∷ xs) p x ys (e, d) = (
  ground (arith, has-append y xs (p ∷ ys), has-append y xs (p ∷ x ∷ ys)),
  Distinct-delete_after xs p x ys d,
)
