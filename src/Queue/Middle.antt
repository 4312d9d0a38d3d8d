-- ===== src/Queue/Middle.antt =====
-- `queue_middle` finds the element at half of the length.
use libcn.Prelude.{
  ℕ, zero, suc, ◌/◌, ◌<◌, ◌≡◌, Ptr, true, false, some, List, [], ◌∷◌, arith, length, get_elem?,
  Distinct, ◌==◌, if◌then◌else◌,
}
use package.libcn.Queue.{Links, middle_loop, queue_middle, queue_empty}
use package.libcn.Queue.Ring.{Chain, Ring, last-mem}

-- A node is the last of the queue exactly when none follows.
last_test :
    (l : Links) (h z w : Ptr) (zs : List Ptr)
    → (Chain l z [] h → (z == l.prev h) ≡ true)
      × (Chain l z (w ∷ zs) h → Distinct (z ∷ w ∷ zs) → (z == l.prev h) ≡ false)
last_test l h z w zs = (λ c. ground arith, λ c d. ground (arith, last-mem l w zs h c.2))

half-suc : (n : ℕ) → suc (suc n) / 2 ≡ suc (n / 2)
half-suc n = omega arith

-- `middle` has `ms` behind it and `next` has `z ∷ ns`, of which there are no more.
middle_loop-get_elem? :
    (k : ℕ) (l : Links) (h x y z : Ptr) (ms ns : List Ptr)
    → Chain l x ms h
    → Chain l y (z ∷ ns) h
    → Distinct (z ∷ ns)
    → length ns < length ms
    → length ns < k
    → middle_loop k l h x y ≡ get_elem? ms (length ns / 2)
unfolding middle_loop
middle_loop-get_elem? zero l h x y z ms ns c d n le fuel = absurd (omega arith)
middle_loop-get_elem? (suc k) l h x y z [] ns c d n le fuel = absurd (omega arith)
middle_loop-get_elem? (suc k) l h x y z (m ∷ ms) [] c d n le fuel = ground arith
middle_loop-get_elem? (suc k) l h x y z (m ∷ ms) (w ∷ []) c d n le fuel = ground arith
middle_loop-get_elem? (suc k) l h x y z (m ∷ []) (w ∷ v ∷ ns) c d n le fuel = absurd (omega arith)
middle_loop-get_elem? (suc k) l h x y z (m ∷ m' ∷ ms) (w ∷ v ∷ ns) c d n le fuel =
    let (_, _, (_, _, c')) = c in
    let (e, _, (f, _, d')) = d in
    let one = (last_test l h z w (v ∷ ns)).1 d.2 n in
    let two = (last_test l h w v ns).1 d' n.1 in
    let ih =
      middle_loop-get_elem? k l h m w v (m' ∷ ms) ns c.2 d' n.1.1 (omega arith) (omega arith) in
    rw (c.0, e, f, one, two, ih, half-suc (length ns))

-- On a queue of n nodes and fuel above n, `queue_middle` returns the node at index n / 2; on an
-- empty queue it returns the sentinel.
pub queue_middle-get_elem? :
    (fuel : ℕ) (l : Links) (h : Ptr) (xs : List Ptr)
    → Ring l h xs
    → length xs < fuel
    → queue_middle fuel l h ≡ (if queue_empty l h then some h else get_elem? xs (length xs / 2))
unfolding queue_middle queue_empty
queue_middle-get_elem? fuel l h [] r lt = ground (arith, r.chain)
queue_middle-get_elem? fuel l h (x ∷ []) r lt = ground (arith, r.chain)
queue_middle-get_elem? fuel l h (x ∷ y ∷ xs) r lt =
    let (e, _, c) = r.chain in
    let far = (last_test l h x y xs).1 c r.distinct.1 in
    let full : (h == l.prev h) ≡ false = ground (arith, last-mem l y xs h c.2) in
    rw (e, far, full, half-suc (length xs))
      (middle_loop-get_elem? fuel l h x x y (y ∷ xs) xs c c r.distinct.1.1 (omega arith)
        (omega arith))
