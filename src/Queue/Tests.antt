-- ===== src/Queue/Tests.antt =====
-- Queues at concrete addresses: the sentinel stands at 1, the nodes behind it.
use libcn.Prelude.{
  ℕ, ◌%◌, ◌/◌, ◌≡◌, refl, Ptr, some, List, [], ◌∷◌, arith, length, get_elem?, if◌then◌else◌,
}
use package.libcn.Queue.{
  Links, queue_init, queue_empty, queue_insert_tail, queue_middle, queue_sort, queue_split,
  queue_add,
}
use package.libcn.Queue.Ring.{Ring}
use package.libcn.Queue.Edit.{queue_init-Ring, insert_tail-Ring}
use package.libcn.Queue.Middle.{queue_middle-get_elem?}
use package.libcn.Queue.Stable.{key_gt, Ascending, with_key, queue_sort_stable}
use package.libcn.Queue.Join.{split-Ring, add-Ring}

abbrev nowhere : Links
nowhere = record { prev = λ a. 0; next = λ a. 0 }

abbrev empty : Links
empty = queue_init nowhere 1

empty-Ring : Ring empty 1 []
empty-Ring = queue_init-Ring nowhere 1

abbrev one : Links
one = queue_insert_tail empty 1 5

one-Ring : Ring one 1 (5 ∷ [])
one-Ring = insert_tail-Ring empty 1 5 [] empty-Ring refl

abbrev two : Links
two = queue_insert_tail one 1 2

two-Ring : Ring two 1 (5 ∷ 2 ∷ [])
two-Ring = insert_tail-Ring one 1 2 (5 ∷ []) one-Ring refl

abbrev three : Links
three = queue_insert_tail two 1 8

three-Ring : Ring three 1 (5 ∷ 2 ∷ 8 ∷ [])
three-Ring = insert_tail-Ring two 1 8 (5 ∷ 2 ∷ []) two-Ring refl

abbrev nodes : List Ptr
nodes = 5 ∷ 2 ∷ 8 ∷ []

queue_middle-get_elem?_example :
    queue_middle 4 three 1
    ≡ (if queue_empty three 1 then some 1 else get_elem? nodes (length nodes / 2))
queue_middle-get_elem?_example = queue_middle-get_elem? 4 three 1 nodes three-Ring (omega arith)

queue_sort_stable_example :
    (g : Links) × (ys : List Ptr) × (queue_sort 4 (key_gt (λ a. a % 3)) three 1 ≡ some g)
    × Ring g 1 ys
    × Ascending (λ a. a % 3) ys
    × ((k : ℕ) → with_key (λ a. a % 3) k ys ≡ with_key (λ a. a % 3) k (5 ∷ 2 ∷ 8 ∷ []))
queue_sort_stable_example =
    queue_sort_stable (λ a. a % 3) 4 three 1 (5 ∷ 2 ∷ 8 ∷ []) three-Ring (omega arith)

abbrev parted : Links
parted = queue_split three 1 2 20

rejoined : Ring (queue_add parted 1 20) 1 (5 ∷ 2 ∷ 8 ∷ [])
rejoined =
    add-Ring parted 1 20 (5 ∷ []) (2 ∷ 8 ∷ []) split-Ring_parts.0 split-Ring_parts.1
      (λ a i. ground arith)
  where
    split-Ring_parts : Ring parted 1 (5 ∷ []) × Ring parted 20 (2 ∷ 8 ∷ [])
    split-Ring_parts = split-Ring three 1 2 20 (5 ∷ []) (8 ∷ []) three-Ring refl
