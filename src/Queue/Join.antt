-- ===== src/Queue/Join.antt =====
-- `queue_split` cuts a queue in two, `queue_add` puts one behind the other.
use mathlib.Core.List.{append-nil}
use libcn.Prelude.{
  ◌≡◌, Ptr, true, false, List, [], ◌∷◌, ◌++◌, arith, has, has-append, Distinct, ◌==◌,
}
use package.libcn.Queue.{Links, queue_split, queue_add}
use package.libcn.Queue.Ring.{Chain, Ring, split, join, last-mem, Cut, cut}

-- The end of a chain, moved to another node `n` whose `prev` link leads into the chain.
move_end :
    (l g : Links) (p : Ptr) (xs : List Ptr) (q n : Ptr)
    → Chain l p xs q
    → Distinct (p ∷ xs)
    → has q xs ≡ false
    → ((a : Ptr) → has a (p ∷ xs) ≡ true → (a == l.prev q) ≡ false → g.next a ≡ l.next a)
    → ((a : Ptr) → has a xs ≡ true → g.prev a ≡ l.prev a)
    → g.next (l.prev q) ≡ n
    → g.prev n ≡ l.prev q
    → Chain g p xs n
move_end l g p [] q n c d o same_next same_prev e f = ground arith
move_end l g p (x ∷ xs) q n (a, b, c) (d, d') o same_next same_prev e f = (
  ground (arith, same_next p, last-mem l x xs q c),
  ground (arith, same_prev x),
  move_end l g x xs q n c d' (ground arith) (λ v i w. same_next v (ground arith) w)
      (λ v i. same_prev v (ground arith)) e f,
)

-- What `queue_split` and the two halves read.
record Halves (l : Links) (h q n : Ptr) (xs ys : List Ptr) : Type 0 where
  front : Chain l h xs q
  back : Chain l q ys h
  cut_at : Cut h xs q ys
  first_last : has (l.prev q) (h ∷ xs) ≡ true
  second_last : has (l.prev h) (q ∷ ys) ≡ true
  fresh_front : has n (h ∷ q ∷ xs) ≡ false
  fresh_back : has n ys ≡ false
  last_apart : has (l.prev h) (h ∷ xs) ≡ false
  first_apart : has (l.prev q) (q ∷ ys) ≡ false

halves :
    (l : Links) (h q n : Ptr) (xs ys : List Ptr)
    → Ring l h (xs ++ q ∷ ys)
    → has n (h ∷ xs ++ q ∷ ys) ≡ false
    → Halves l h q n xs ys
halves l h q n xs ys r o =
    let (front, back) = split l h xs q ys h r.chain in
    let c = cut h xs q ys r.distinct in
    record {
      front = front;
      back = back;
      cut_at = c;
      first_last = last-mem l h xs q front;
      second_last = last-mem l q ys h back;
      fresh_front = ground (arith, has-append n xs (q ∷ ys));
      fresh_back = ground (arith, has-append n xs (q ∷ ys));
      last_apart = ground (arith, last-mem l q ys h back, c.apart (l.prev h));
      first_apart = ground (arith, last-mem l h xs q front, c.apart (l.prev q));
    }

split-front :
    (l : Links) (h q n : Ptr) (xs ys : List Ptr)
    → Halves l h q n xs ys
    → Chain (queue_split l h q n) h xs h
unfolding queue_split
split-front l h q n xs ys v =
    let c = v.cut_at in
    move_end l _ h xs q h v.front (c.head_front, c.front) c.node_front
      (λ a i w. ground (arith, v.last_apart, c.apart a)) (λ a i. ground arith) (ground arith)
      (ground arith)

split-back :
    (l : Links) (h q n : Ptr) (xs ys : List Ptr)
    → Halves l h q n xs ys
    → Chain (queue_split l h q n) n (q ∷ ys) n
unfolding queue_split
split-back l h q n xs ys v =
    let c = v.cut_at in
    (
      ground arith,
      ground arith,
      move_end l _ q ys h n v.back (c.node_back, c.back) c.head_back (λ a i w. ground arith)
          (λ a i. ground arith) (ground arith) (ground arith),
    )

-- `queue_split` at `q` leaves the nodes before `q` in the queue `h`, and moves `q` and those
-- behind it, in order, to the queue of the fresh sentinel `n`.
pub split-Ring :
    (l : Links) (h q n : Ptr) (xs ys : List Ptr)
    → Ring l h (xs ++ q ∷ ys)
    → has n (h ∷ xs ++ q ∷ ys) ≡ false
    → Ring (queue_split l h q n) h xs × Ring (queue_split l h q n) n (q ∷ ys)
split-Ring l h q n xs ys r o =
    let v = halves l h q n xs ys r o in
    let c = v.cut_at in
    (
      record { chain = split-front l h q n xs ys v; distinct = (c.head_front, c.front) },
      record { chain = split-back l h q n xs ys v; distinct = ground arith },
    )

Distinct-append :
    (xs ys : List Ptr)
    → Distinct xs
    → Distinct ys
    → ((a : Ptr) → has a xs ≡ true → has a ys ≡ false)
    → Distinct (xs ++ ys)
Distinct-append [] ys d e apart = e
Distinct-append (x ∷ xs) ys (o, d) e apart = (
  ground (arith, has-append x xs ys, apart x),
  Distinct-append xs ys d e (λ a i. apart a (ground arith)),
)

add-empty :
    (l : Links) (h n : Ptr) (xs : List Ptr)
    → Ring l h xs
    → Ring l n []
    → has n (h ∷ xs) ≡ false
    → Ring (queue_add l h n) h xs
unfolding queue_add
add-empty l h n xs r s o =
    let last = last-mem l h xs h r.chain in
    record {
      chain =
          move_end l _ h xs h h r.chain r.distinct r.distinct.0 (λ a i w. ground arith)
            (λ a i. ground arith) (ground arith) (ground arith);
      distinct = r.distinct;
    }

add-cons :
    (l : Links) (h n y : Ptr) (xs ys : List Ptr)
    → Ring l h xs
    → Ring l n (y ∷ ys)
    → ((a : Ptr) → has a (h ∷ xs) ≡ true → has a (n ∷ y ∷ ys) ≡ false)
    → Ring (queue_add l h n) h (xs ++ y ∷ ys)
unfolding queue_add
add-cons l h n y xs ys r s apart =
    let last = last-mem l h xs h r.chain in
    let last_n = last-mem l y ys n s.chain.2 in
    let self : has h (h ∷ xs) ≡ true = ground arith in
    let out = apart h self in
    let out_last = apart (l.prev h) last in
    record {
      chain =
          join _ h xs y ys h
            (move_end l _ h xs h y r.chain r.distinct r.distinct.0
              (λ a i w. ground (arith, apart a)) (λ a i. ground (arith, apart a)) (ground arith)
              (ground arith))
            (move_end l _ y ys n h s.chain.2 s.distinct.1 (ground arith) (λ a i w. ground arith)
              (λ a i. ground arith) (ground arith) (ground arith));
      distinct =
          Distinct-append (h ∷ xs) (y ∷ ys) r.distinct s.distinct.1
            (λ a i. ground (arith, apart a));
    }

-- `queue_add` puts the nodes of the queue `n` behind those of `h`, in order, also when one of the
-- two is empty. The queues share no node.
pub add-Ring :
    (l : Links) (h n : Ptr) (xs ys : List Ptr)
    → Ring l h xs
    → Ring l n ys
    → ((a : Ptr) → has a (h ∷ xs) ≡ true → has a (n ∷ ys) ≡ false)
    → Ring (queue_add l h n) h (xs ++ ys)
add-Ring l h n xs [] r s apart = rw append-nil (add-empty l h n xs r s (ground (arith, apart n)))
add-Ring l h n xs (y ∷ ys) r s apart = add-cons l h n y xs ys r s apart
