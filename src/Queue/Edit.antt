-- ===== src/Queue/Edit.antt =====
-- The macros that link a node into a queue and out of it, as edits of the list of nodes.
use mathlib.Core.List.{append_assoc}
use libcn.Prelude.{
  ◌≡◌, refl, inl, inr, Ptr, true, false, List, [], ◌∷◌, ◌++◌, arith, has, has-append, Distinct,
}
use package.libcn.Queue.{
  Links, queue_init, queue_empty, queue_insert_head, queue_insert_after, queue_insert_tail,
  queue_remove,
}
use package.libcn.Queue.Ring.{
  Chain, Ring, frame, split, join, last-mem, Distinct-insert_after, Distinct-delete_after, cut,
  first-mem, snoc-cases,
}

pub queue_init-Ring : (l : Links) (h : Ptr) → Ring (queue_init l h) h []
unfolding queue_init
queue_init-Ring l h = record { chain = ground arith; distinct = (refl, tt) }

-- One link of a chain, `p` to what follows, is opened for `x`.
insert_after-Chain :
    (l : Links) (p : Ptr) (ys : List Ptr) (q x : Ptr)
    → Chain l p ys q
    → Distinct ys
    → has p ys ≡ false
    → has q ys ≡ false
    → has x (p ∷ q ∷ ys) ≡ false
    → Chain (queue_insert_after l p x) p (x ∷ ys) q
unfolding queue_insert_after
insert_after-Chain l p [] q x c d po qo xo = ground arith
insert_after-Chain l p (y ∷ ys) q x (e, f, c) d po qo xo = (
  ground arith,
  ground arith,
  (ground arith, ground arith, frame l _ y ys q c (λ a i. ground arith) (λ a i. ground arith)),
)

-- The link out of `p` and into `x` is closed over `x`.
remove-Chain :
    (l : Links) (p x : Ptr) (ys : List Ptr) (q : Ptr)
    → Chain l p (x ∷ ys) q
    → Distinct (x ∷ ys)
    → has p (x ∷ ys) ≡ false
    → has q (x ∷ ys) ≡ false
    → Chain (queue_remove l x) p ys q
unfolding queue_remove
remove-Chain l p x [] q c d po qo = ground arith
remove-Chain l p x (y ∷ ys) q (e, f, c) d po qo =
    (ground arith, ground arith, frame l _ y ys q c.2 (λ a i. ground arith) (λ a i. ground arith))

-- `queue_insert_head` of a node that is not in the ring puts it in front of the others.
pub insert_head-Ring :
    (l : Links) (h x : Ptr) (xs : List Ptr)
    → Ring l h xs
    → has x (h ∷ xs) ≡ false
    → Ring (queue_insert_head l h x) h (x ∷ xs)
unfolding queue_insert_after
insert_head-Ring l h x xs r o = record {
  chain =
      insert_after-Chain l h xs h x r.chain r.distinct.1 r.distinct.0 r.distinct.0 (ground arith);
  distinct = ground arith;
}

-- `queue_insert_after` of a node that is not in the ring puts it right behind the node `p`.
pub insert_after-Ring :
    (l : Links) (h p x : Ptr) (xs ys : List Ptr)
    → Ring l h (xs ++ p ∷ ys)
    → has x (h ∷ xs ++ p ∷ ys) ≡ false
    → Ring (queue_insert_after l p x) h (xs ++ p ∷ x ∷ ys)
unfolding queue_insert_after
insert_after-Ring l h p x xs ys r o =
    let (front, back) = split l h xs p ys h r.chain in
    let c = cut h xs p ys r.distinct in
    let out = has-append x (h ∷ xs) (p ∷ ys) in
    record {
      chain =
          join _ h xs p (x ∷ ys) h
            (frame l _ h xs p front (λ a i. ground (arith, c.apart a, out))
              (λ a i. ground (arith, c.apart a, out, first-mem l p ys h back)))
            (insert_after-Chain l p ys h x back c.back c.node_back c.head_back (ground arith));
      distinct = (
        ground (arith, has-append h xs (p ∷ ys), has-append h xs (p ∷ x ∷ ys)),
        Distinct-insert_after xs p x ys r.distinct.1 (ground arith),
      );
    }

-- At a ring, the tail is the place behind the last node.
insert_tail-frame :
    (l : Links) (h x p : Ptr) (xs : List Ptr)
    → l.prev h ≡ p
    → l.next p ≡ h
    → has x (h ∷ p ∷ []) ≡ false
    → Chain (queue_insert_after l p x) h xs h
    → Chain (queue_insert_tail l h x) h xs h
unfolding queue_insert_after queue_insert_tail
insert_tail-frame l h x p xs e f o c =
    frame _ _ h xs h c (λ a i. ground arith) (λ a i. ground arith)

insert_tail-empty :
    (l : Links) (h x : Ptr)
    → Ring l h []
    → has x (h ∷ []) ≡ false
    → Ring (queue_insert_tail l h x) h (x ∷ [])
unfolding queue_insert_tail
insert_tail-empty l h x r o = record { chain = ground arith; distinct = ground arith }

insert_tail-snoc :
    (l : Links) (h x : Ptr) (ys : List Ptr) (p : Ptr)
    → Ring l h (ys ++ p ∷ [])
    → has x (h ∷ ys ++ p ∷ []) ≡ false
    → Ring (queue_insert_tail l h x) h ((ys ++ p ∷ []) ++ x ∷ [])
insert_tail-snoc l h x ys p r o =
    let r' = insert_after-Ring l h p x ys [] r o in
    let (_, (e, f)) = split l h ys p [] h r.chain in
    rw (append_assoc ys (p ∷ []) (x ∷ [])) (record {
      chain =
          insert_tail-frame l h x p (ys ++ p ∷ x ∷ []) f e
            (ground (arith, has-append x ys (p ∷ []))) r'.chain;
      distinct = r'.distinct;
    })

-- `queue_insert_tail` of a node that is not in the ring puts it behind the others.
pub insert_tail-Ring :
    (l : Links) (h x : Ptr) (xs : List Ptr)
    → Ring l h xs
    → has x (h ∷ xs) ≡ false
    → Ring (queue_insert_tail l h x) h (xs ++ x ∷ [])
insert_tail-Ring l h x xs r o = elim (snoc-cases xs) [
  | inl e ↦ rw e (insert_tail-empty l h x (rw e at r) (rw e at o))
  | inr (ys, p, e) ↦ rw e (insert_tail-snoc l h x ys p (rw e at r) (rw e at o))
]

remove-first :
    (l : Links) (h x : Ptr) (ys : List Ptr) → Ring l h (x ∷ ys) → Ring (queue_remove l x) h ys
remove-first l h x ys r = record {
  chain = remove-Chain l h x ys h r.chain r.distinct.1 r.distinct.0 r.distinct.0;
  distinct = ground arith;
}

remove-later :
    (l : Links) (h : Ptr) (zs : List Ptr) (p x : Ptr) (ys : List Ptr)
    → Ring l h (zs ++ p ∷ x ∷ ys)
    → Ring (queue_remove l x) h (zs ++ p ∷ ys)
unfolding queue_remove
remove-later l h zs p x ys r =
    let (front, back) = split l h zs p (x ∷ ys) h r.chain in
    let c = cut h zs p (x ∷ ys) r.distinct in
    record {
      chain =
          join _ h zs p ys h
            (frame l _ h zs p front (λ a i. ground (arith, c.apart a))
              (λ a i. ground (arith, c.apart a, first-mem l x ys h back.2)))
            (remove-Chain l p x ys h back c.back c.node_back c.head_back);
      distinct = (
        ground (arith, has-append h zs (p ∷ x ∷ ys), has-append h zs (p ∷ ys)),
        Distinct-delete_after zs p x ys r.distinct.1,
      );
    }

remove-snoc :
    (l : Links) (h : Ptr) (zs : List Ptr) (p x : Ptr) (ys : List Ptr)
    → Ring l h ((zs ++ p ∷ []) ++ x ∷ ys)
    → Ring (queue_remove l x) h ((zs ++ p ∷ []) ++ ys)
remove-snoc l h zs p x ys r =
    rw (append_assoc zs (p ∷ []) ys)
      (remove-later l h zs p x ys (rw (append_assoc zs (p ∷ []) (x ∷ ys)) at r))

-- `queue_remove` of a node of the ring leaves the other nodes in their order.
pub remove-Ring :
    (l : Links) (h x : Ptr) (xs ys : List Ptr)
    → Ring l h (xs ++ x ∷ ys)
    → Ring (queue_remove l x) h (xs ++ ys)
remove-Ring l h x xs ys r = elim (snoc-cases xs) [
  | inl e ↦ rw e (remove-first l h x ys (rw e at r))
  | inr (zs, p, e) ↦ rw e (remove-snoc l h zs p x ys (rw e at r))
]

-- The links of all nodes but `xs` are the same.
pub record Untouched (l g : Links) (xs : List Ptr) : Type 0 where
  pub next : (a : Ptr) → has a xs ≡ false → g.next a ≡ l.next a
  pub prev : (a : Ptr) → has a xs ≡ false → g.prev a ≡ l.prev a

pub Ring-frame :
    (l g : Links) (h : Ptr) (xs zs : List Ptr)
    → Ring l h xs
    → Untouched l g zs
    → ((a : Ptr) → has a (h ∷ xs) ≡ true → has a zs ≡ false)
    → Ring g h xs
Ring-frame l g h xs zs r u apart = record {
  chain = frame l g h xs h r.chain (λ a i. u.next a (apart a i)) (λ a i. u.prev a (apart a i));
  distinct = r.distinct;
}

pub insert_head-Untouched :
    (l : Links) (h x : Ptr) (xs : List Ptr)
    → Ring l h xs
    → Untouched l (queue_insert_head l h x) (x ∷ h ∷ xs)
unfolding queue_insert_head
insert_head-Untouched l h x xs r = record {
  next = λ a i. ground arith;
  prev = λ a i. ground (arith, first-mem l h xs h r.chain);
}

pub insert_tail-Untouched :
    (l : Links) (h x : Ptr) (xs : List Ptr)
    → Ring l h xs
    → Untouched l (queue_insert_tail l h x) (x ∷ h ∷ xs)
unfolding queue_insert_tail
insert_tail-Untouched l h x xs r = record {
  next = λ a i. ground (arith, last-mem l h xs h r.chain);
  prev = λ a i. ground arith;
}

-- `queue_remove` of a node of a ring writes no link but those of the sentinel and the ring's nodes.
pub remove-Untouched :
    (l : Links) (h x : Ptr) (xs ys : List Ptr)
    → Ring l h (xs ++ x ∷ ys)
    → Untouched l (queue_remove l x) (h ∷ xs ++ x ∷ ys)
unfolding queue_remove
remove-Untouched l h x xs ys r =
    let (front, back) = split l h xs x ys h r.chain in
    let out = λ (a : Ptr). has-append a xs (x ∷ ys) in
    record {
      next =
          λ a i. ground (arith, out a, last-mem l h xs x front, has-append (l.prev x) xs (x ∷ ys));
      prev =
          λ a i. ground (arith, out a, first-mem l x ys h back, has-append (l.next x) xs (x ∷ ys));
    }

-- The test of the loops: empty exactly when no node is in the ring.
pub queue_empty-Ring :
    (l : Links) (h x : Ptr) (xs : List Ptr)
    → (Ring l h [] → queue_empty l h ≡ true) × (Ring l h (x ∷ xs) → queue_empty l h ≡ false)
unfolding queue_empty
queue_empty-Ring l h x xs = (λ r. ground arith, λ r. ground (arith, last-mem l x xs h r.chain.2))
