-- ===== src/Queue/Sort.antt =====
-- `queue_sort` is a stable insertion sort of the nodes.
use mathlib.Core.List.{reverse_aux, reverse_aux-eq}
use libcn.Prelude.{
  ℕ, zero, suc, ◌+◌, ◌≤◌, ◌<◌, ◌≡◌, refl, ap, ◌∙◌, Ptr, Bool, false, some, List, [], ◌∷◌, ◌++◌,
  arith, has, has-append, length, Distinct, ◌==◌, if◌then◌else◌, Bool-cases, inl, inr, eq→==,
}
use package.libcn.Queue.{Links, sort_back, sort_loop, queue_sort, queue_insert_after, queue_remove}
use package.libcn.Queue.Ring.{Chain, Ring, split, last-mem, Distinct-delete}
use package.libcn.Queue.Edit.{insert_after-Ring, insert_head-Ring, remove-Ring}

-- An element goes behind the last one that does not exceed it: on the sorted part, last first.
unfoldable pub insert_back : (Ptr → Ptr → Bool) → Ptr → List Ptr → List Ptr
insert_back gt q [] = q ∷ []
insert_back gt q (p ∷ rs) = if gt p q then p ∷ insert_back gt q rs else q ∷ p ∷ rs

-- The sorted part, last first, and the rest.
unfoldable pub sort_onto : (Ptr → Ptr → Bool) → List Ptr → List Ptr → List Ptr
unfolding insert_back
sort_onto gt rs [] = reverse_aux rs []
sort_onto gt rs (q ∷ us) = sort_onto gt (insert_back gt q rs) us

-- In a ring cut at `p`, with the nodes before it last first, the `prev` link leads to the first.
prev-node :
    (l : Links) (h p r : Ptr) (rs us : List Ptr)
    → Ring l h (reverse_aux (p ∷ r ∷ rs) us)
    → (l.prev p ≡ r) × (has h (r ∷ []) ≡ false)
prev-node l h p r rs us ring =
    let c = rw (reverse_aux-eq rs (r ∷ p ∷ us)) at ring.chain in
    let d = rw (reverse_aux-eq rs (r ∷ p ∷ us)) at ring.distinct in
    let (_, back) = split l h (reverse_aux rs []) r (p ∷ us) h c in
    (back.1, ground (arith, has-append h (reverse_aux rs []) (r ∷ p ∷ us)))

insert_done :
    (l : Links) (h q p : Ptr) (rs us : List Ptr)
    → Ring l h (reverse_aux (p ∷ rs) us)
    → has q (h ∷ reverse_aux (p ∷ rs) us) ≡ false
    → Ring (queue_insert_after l p q) h (reverse_aux (q ∷ p ∷ rs) us)
insert_done l h q p rs us r o = rw (reverse_aux-eq rs (p ∷ q ∷ us)) (
    insert_after-Ring l h p q (reverse_aux rs []) us (rw (reverse_aux-eq rs (p ∷ us)) at r)
      (rw (reverse_aux-eq rs (p ∷ us)) at o))

back-Ring :
    (gt : Ptr → Ptr → Bool) (k : ℕ) (l : Links) (h q p : Ptr) (rs us : List Ptr)
    → Ring l h (reverse_aux (p ∷ rs) us)
    → has q (h ∷ reverse_aux (p ∷ rs) us) ≡ false
    → length rs < k
    → (p' : Ptr) × (sort_back k gt l h q p ≡ some p')
      × Ring (queue_insert_after l p' q) h (reverse_aux (insert_back gt q (p ∷ rs)) us)
unfolding sort_back insert_back queue_insert_after
back-Ring gt zero l h q p rs us r o fuel = absurd (omega arith)
back-Ring gt (suc k) l h q p [] us r o fuel = elim (Bool-cases (gt p q)) [
  | inl more ↦ (
    h,
    rw (more, eq→== (l.prev p) h r.chain.1) (ap some r.chain.1),
    rw more (insert_head-Ring l h q (p ∷ us) r o),
  )
  | inr done ↦ (p, rw done, rw done (insert_done l h q p [] us r o))
]
back-Ring gt (suc k) l h q p (r' ∷ rs) us r o fuel = elim (Bool-cases (gt p q)) [
  | inl more ↦
      let (e, n) = prev-node l h p r' rs us r in
      let (p', found, ring) = back-Ring gt k l h q r' rs (p ∷ us) r o (omega arith) in
      let differ : (r' == h) ≡ false = ground arith in
      (p', rw (more, e, differ) found, rw more ring)
  | inr done ↦ (p, rw done, rw done (insert_done l h q p (r' ∷ rs) us r o))
]

length-insert_back :
    (gt : Ptr → Ptr → Bool) (q : Ptr) (rs : List Ptr)
    → length (insert_back gt q rs) ≡ suc (length rs)
unfolding insert_back
length-insert_back gt q [] = refl
length-insert_back gt q (p ∷ rs) = ground (arith, length-insert_back gt q rs)

-- The node at which the rest begins: the sentinel, if there is no rest.
abbrev first_or : Ptr → List Ptr → Ptr
first_or h [] = h
first_or h (x ∷ xs) = x

-- What a round of the loop reads, and what is left when it has taken `q` out.
record Taken (l : Links) (h p q : Ptr) (rs us : List Ptr) : Type 0 where
  differ : (q == h) ≡ false
  before : l.prev q ≡ p
  after : l.next q ≡ first_or h us
  rest : Ring (queue_remove l q) h (reverse_aux (p ∷ rs) us)
  out : has q (h ∷ reverse_aux (p ∷ rs) us) ≡ false

next-first_or : (l : Links) (h q : Ptr) (us : List Ptr) → Chain l q us h → l.next q ≡ first_or h us
next-first_or l h q [] c = c.0
next-first_or l h q (u ∷ us) c = c.0

out_of_rest :
    (h q : Ptr) (xs us : List Ptr)
    → Distinct (h ∷ xs ++ q ∷ us)
    → ((q == h) ≡ false) × (has q (h ∷ xs ++ us) ≡ false)
out_of_rest h q xs us (e, d) =
    let (_, new) = Distinct-delete xs q us d in
    let apart : (q == h) ≡ false = ground (arith, has-append h xs (q ∷ us)) in (apart, ground arith)

take_out :
    (l : Links) (h p q : Ptr) (rs us : List Ptr)
    → Ring l h (reverse_aux (p ∷ rs) (q ∷ us))
    → Taken l h p q rs us
take_out l h p q rs us r =
    let xs = reverse_aux (p ∷ rs) [] in
    let r' : Ring l h (xs ++ q ∷ us) = rw (reverse_aux-eq (p ∷ rs) (q ∷ us)) at r in
    let (_, back) = split l h xs q us h r'.chain in
    let (apart, new) = out_of_rest h q xs us r'.distinct in
    record {
      differ = apart;
      before = (prev-node l h q p rs us r).0;
      after = next-first_or l h q us back;
      rest = rw (reverse_aux-eq (p ∷ rs) us) (remove-Ring l h q xs us r');
      out = rw (reverse_aux-eq (p ∷ rs) us) new;
    }

-- A round of the loop on a queue that it has not gone through.
sort_loop-round :
    (fuel k : ℕ) (gt : Ptr → Ptr → Bool) (l : Links) (h p q p' : Ptr) (rs us : List Ptr)
    → Taken l h p q rs us
    → sort_back fuel gt (queue_remove l q) h q p ≡ some p'
    → sort_loop fuel (suc k) gt l h q
      ≡ sort_loop fuel k gt (queue_insert_after (queue_remove l q) p' q) h (first_or h us)
unfolding sort_loop
sort_loop-round fuel k gt l h p q p' rs us t found =
    rw (t.differ, sort_loop) (rw (t.before, found, t.after))

-- From the sorted nodes `rs`, last first, and the rest `us`, the loop sorts the whole ring.
sort_loop-Ring :
    (fuel k : ℕ) (gt : Ptr → Ptr → Bool) (l : Links) (h : Ptr) (rs us : List Ptr)
    → Ring l h (reverse_aux rs us)
    → 0 < length rs
    → length us < k
    → length rs + length us ≤ fuel
    → (g : Links) × (sort_loop fuel k gt l h (first_or h us) ≡ some g)
      × Ring g h (sort_onto gt rs us)
unfolding sort_onto
sort_loop-Ring fuel zero gt l h rs us r pos lt le = absurd (omega arith)
sort_loop-Ring fuel (suc k) gt l h rs [] r pos lt le =
    (l, unfold sort_loop in rw (eq→== h h refl, sort_loop), r)
sort_loop-Ring fuel (suc k) gt l h [] (q ∷ us) r pos lt le = absurd (omega arith)
sort_loop-Ring fuel (suc k) gt l h (p ∷ rs) (q ∷ us) r pos lt le =
    let t = take_out l h p q rs us r in
    let (p', found, ring) =
      back-Ring gt fuel (queue_remove l q) h q p rs us t.rest t.out (omega arith) in
    let size = length-insert_back gt q (p ∷ rs) in
    let (g, done, ring') =
      sort_loop-Ring fuel k gt (queue_insert_after (queue_remove l q) p' q) h
        (insert_back gt q (p ∷ rs)) us ring (omega arith) (omega arith) (omega arith) in
    (g, sort_loop-round fuel k gt l h p q p' rs us t found ∙ done, ring')

-- The queue's nodes sorted by insertion, the first of them to begin with.
unfoldable pub sorted : (Ptr → Ptr → Bool) → List Ptr → List Ptr
unfolding sort_onto
sorted gt [] = []
sorted gt (x ∷ xs) = sort_onto gt (x ∷ []) xs

queue_sort-start :
    (fuel : ℕ) (gt : Ptr → Ptr → Bool) (l : Links) (h x y : Ptr) (xs : List Ptr)
    → Ring l h (x ∷ y ∷ xs)
    → queue_sort fuel gt l h ≡ sort_loop fuel fuel gt l h y
unfolding queue_sort
queue_sort-start fuel gt l h x y xs r =
    let (e, _, c) = r.chain in
    let far : (x == l.prev h) ≡ false = ground (arith, last-mem l y xs h c.2) in rw (e, far, c.0)

-- With fuel above the number of nodes `queue_sort` returns links in which the queue holds its
-- nodes in the order of the insertion sort.
pub queue_sort-sorted :
    (fuel : ℕ) (gt : Ptr → Ptr → Bool) (l : Links) (h : Ptr) (xs : List Ptr)
    → Ring l h xs
    → length xs < fuel
    → (g : Links) × (queue_sort fuel gt l h ≡ some g) × Ring g h (sorted gt xs)
unfolding queue_sort sorted
queue_sort-sorted fuel gt l h [] r lt = (l, ground (arith, r.chain), r)
queue_sort-sorted fuel gt l h (x ∷ []) r lt = (l, ground (arith, r.chain), r)
queue_sort-sorted fuel gt l h (x ∷ y ∷ xs) r lt =
    let (g, done, ring) =
      sort_loop-Ring fuel fuel gt l h (x ∷ []) (y ∷ xs) r (omega arith) (omega arith)
        (omega arith) in
    (g, queue_sort-start fuel gt l h x y xs r ∙ done, ring)
