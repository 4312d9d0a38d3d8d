-- ===== src/Queue.antt =====
-- queue.h and queue.c: circular doubly linked queues through a sentinel. The links of all
-- `queue_t` nodes are two functions of the address; a macro is its assignments in order.
pub mod Ring
pub mod Edit
mod Middle
mod Sort
mod Stable
mod Join
mod Tests
use libcn.Prelude.{
  ℕ, zero, suc, Ptr, Bool, true, false, Option, none, some, ◌==◌, if◌then◌else◌, write,
}

-- `struct queue_s` at every address.
pub record Links : Type 0 where
  pub prev : Ptr → Ptr
  pub next : Ptr → Ptr

-- `(x)->prev = v` and `(x)->next = v`.
abbrev pub set_prev : Links → Ptr → Ptr → Links
set_prev l x v = record l { prev = write l.prev x v }

abbrev pub set_next : Links → Ptr → Ptr → Links
set_next l x v = record l { next = write l.next x v }

unfoldable pub queue_init : Links → Ptr → Links
queue_init l q = let l1 = set_prev l q q in set_next l1 q q

unfoldable pub queue_empty : Links → Ptr → Bool
queue_empty l h = h == l.prev h

unfoldable pub queue_insert_head : Links → Ptr → Ptr → Links
queue_insert_head l h x =
    let l1 = set_next l x (l.next h) in
    let l2 = set_prev l1 (l1.next x) x in let l3 = set_prev l2 x h in set_next l3 h x

-- `#define queue_insert_after queue_insert_head`.
unfoldable pub queue_insert_after : Links → Ptr → Ptr → Links
unfolding queue_insert_head
queue_insert_after = queue_insert_head

unfoldable pub queue_insert_tail : Links → Ptr → Ptr → Links
queue_insert_tail l h x =
    let l1 = set_prev l x (l.prev h) in
    let l2 = set_next l1 (l1.prev x) x in let l3 = set_next l2 x h in set_prev l3 h x

abbrev pub queue_head : Links → Ptr → Ptr
queue_head l h = l.next h

abbrev pub queue_last : Links → Ptr → Ptr
queue_last l h = l.prev h

unfoldable pub queue_remove : Links → Ptr → Links
queue_remove l x = let l1 = set_prev l (l.next x) (l.prev x) in set_next l1 (l1.prev x) (l1.next x)

unfoldable pub queue_split : Links → Ptr → Ptr → Ptr → Links
queue_split l h q n =
    let l1 = set_prev l n (l.prev h) in
    let l2 = set_next l1 (l1.prev n) n in
    let l3 = set_next l2 n q in
    let l4 = set_prev l3 h (l3.prev q) in let l5 = set_next l4 (l4.prev h) h in set_prev l5 q n

unfoldable pub queue_add : Links → Ptr → Ptr → Links
queue_add l h n =
    let l1 = set_next l (l.prev h) (l.next n) in
    let l2 = set_prev l1 (l1.next n) (l1.prev h) in
    let l3 = set_prev l2 h (l2.prev n) in set_next l3 (l3.prev h) h

-- The `for (;;)` of `queue_middle`, a round on each unit of fuel; `none` when the fuel runs out.
middle_loop : ℕ → Links → Ptr → Ptr → Ptr → Option Ptr
middle_loop zero l queue middle next = none
middle_loop (suc k) l queue middle next =
    let middle' = l.next middle in
    let next' = l.next next in
    let next'' = l.next next' in
    let rest = middle_loop k l queue middle' next'' in
    if next' == queue_last l queue
    then some middle'
    else if next'' == queue_last l queue
    then some middle'
    else rest

-- The middle element of an odd queue, the first of the second half of an even one.
unfoldable pub queue_middle : ℕ → Links → Ptr → Option Ptr
unfolding middle_loop
queue_middle fuel l queue =
    let middle = queue_head l queue in
    if middle == queue_last l queue
    then some middle
    else middle_loop fuel l queue middle (queue_head l queue)

-- The `do … while` of `queue_sort`: from `prev` back to the node behind which `q` goes.
-- `gt a b` is `cmp(a, b) > 0`.
sort_back : ℕ → (Ptr → Ptr → Bool) → Links → Ptr → Ptr → Ptr → Option Ptr
sort_back zero gt l queue q prev = none
sort_back (suc k) gt l queue q prev =
    let prev' = l.prev prev in
    let rest = sort_back k gt l queue q prev' in
    if gt prev q then (if prev' == queue then some prev' else rest) else some prev

-- The `for` of `queue_sort`; each round walks back on fuel of its own.
sort_loop : ℕ → ℕ → (Ptr → Ptr → Bool) → Links → Ptr → Ptr → Option Links
unfolding sort_back
sort_loop fuel zero gt l queue q = none
sort_loop fuel (suc k) gt l queue q = elim (q == queue) [
  | true ↦ some l
  | false ↦ elim (sort_back fuel gt (queue_remove l q) queue q (l.prev q)) [
    | none ↦ none
    | some p ↦ sort_loop fuel k gt (queue_insert_after (queue_remove l q) p q) queue (l.next q)
  ]
]

unfoldable pub queue_sort : ℕ → (Ptr → Ptr → Bool) → Links → Ptr → Option Links
unfolding sort_loop
queue_sort fuel gt l queue =
    let q = queue_head l queue in
    if q == queue_last l queue then some l else sort_loop fuel fuel gt l queue (l.next q)
