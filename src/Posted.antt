-- ===== src/Posted.antt =====
-- event_posted.h and event_posted.c: events whose handlers run later, in the order of posting.
mod Order
mod Tests
use libcn.Prelude.{ℕ, zero, suc, Ptr, Bool, true, false, Option, none, some, if◌then◌else◌}
use libcn.Queue.{queue_empty, queue_head, queue_insert_tail, queue_remove}
use libcn.World.{Event, World, set_event}

-- `queue` is the address of `posted_accept_events` or of `posted_events`.
unfoldable pub post_event : World → Ptr → Ptr → World
post_event w ev queue =
    if (w.events ev).posted
    then w
    else (let w1 = set_event w ev (record (w.events ev) { posted = true }) in
        record w1 { posted_links = queue_insert_tail w1.posted_links queue ev })

unfoldable pub delete_posted_event : World → Ptr → World
delete_posted_event w ev =
    let w1 = set_event w ev (record (w.events ev) { posted = false }) in
    record w1 { posted_links = queue_remove w1.posted_links ev }

-- The `while` of `event_process_posted`; `none` when the fuel runs out. `handle` runs
-- `ev->handler(ev)`.
unfoldable pub event_process_posted : ℕ → (Ptr → World → Option World) → World → Ptr → Option World
event_process_posted zero handle w posted = none
event_process_posted (suc k) handle w posted = elim (queue_empty w.posted_links posted) [
  | true ↦ some w
  | false ↦
      let ev = queue_head w.posted_links posted in
      elim (handle ev (delete_posted_event w ev)) [
        | none ↦ none
        | some w' ↦ event_process_posted k handle w' posted
      ]
]
