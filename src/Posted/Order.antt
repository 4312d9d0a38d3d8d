-- ===== src/Posted/Order.antt =====
-- The order in which posted events are handled.
use libcn.Prelude.{
  ◌≡◌, refl, Ptr, Bool, true, false, List, [], ◌∷◌, ◌++◌, arith, has, has-append, ◌==◌,
  if◌then◌else◌, sym, ◌∙◌, ◌||◌,
}
use libcn.Queue.{Links, queue_insert_tail}
use libcn.Queue.Ring.{Ring}
use libcn.Queue.Edit.{Ring-frame, insert_tail-Ring, insert_tail-Untouched}
use libcn.World.{World}
use package.libcn.Posted.{post_event, delete_posted_event}

-- The posted events are `es` in the queue at `q` and `os` in the other one, at `o`; they are the
-- events with the flag.
pub record IsPosted (w : World) (q o : Ptr) (es os : List Ptr) : Type 0 where
  pub ring : Ring w.posted_links q es
  pub other : Ring w.posted_links o os
  pub apart : (a : Ptr) → has a (q ∷ es) ≡ true → has a (o ∷ os) ≡ false
  pub flag : (e : Ptr) → (w.events e).posted ≡ (has e es || has e os)

-- What `post_event` and `delete_posted_event` write.
record Flagged (w v : World) (ev : Ptr) (b : Bool) (l : Links) : Type 0 where
  links : v.posted_links ≡ l
  flag : (e : Ptr) → (v.events e).posted ≡ (if e == ev then b else (w.events e).posted)

post_event-Flagged :
    (w : World) (ev q : Ptr)
    → (w.events ev).posted ≡ false
    → Flagged w (post_event w ev q) ev true (queue_insert_tail w.posted_links q ev)
unfolding post_event
post_event-Flagged w ev q n = record { links = ground arith; flag = λ e. ground arith }

-- In a state with two sound queues of posted events, an event that is not posted goes behind the
-- others of its queue, and the other queue stays; one that is posted, in either queue, stays where
-- it is, and nothing changes.
pub post_event-IsPosted :
    (w : World) (ev q o : Ptr) (es os : List Ptr)
    → IsPosted w q o es os
    → has ev (q ∷ o ∷ []) ≡ false
    → ((w.events ev).posted ≡ false → IsPosted (post_event w ev q) q o (es ++ ev ∷ []) os)
      × ((w.events ev).posted ≡ true → post_event w ev q ≡ w)
unfolding post_event
post_event-IsPosted w ev q o es os p out = (
  λ n.
      let f = post_event-Flagged w ev q n in
      let absent = sym (p.flag ev) ∙ n in
      let u = insert_tail-Untouched w.posted_links q ev es p.ring in
      record {
        ring = rw f.links (insert_tail-Ring w.posted_links q ev es p.ring (ground arith));
        other = rw f.links (
            Ring-frame w.posted_links _ o os (ev ∷ q ∷ es) p.other u
              (λ a i. ground (arith, p.apart a)));
        apart = λ a i. ground (arith, p.apart a, has-append a es (ev ∷ []));
        flag = λ e. ground (arith, f.flag e, p.flag e, has-append e es (ev ∷ []));
      },
  λ t. rw t refl,
)

-- The handlers of `es`, run one after the other, each after its event has left its queue.
abbrev pub run_all : (Ptr → World → World) → List Ptr → World → World
run_all handle [] w = w
run_all handle (e ∷ es) w = run_all handle es (handle e (delete_posted_event w e))

-- A handler that neither posts nor removes events.
abbrev pub Quiet : (Ptr → World → World) → Type 0
Quiet handle =
    (e : Ptr) (w : World) (q o : Ptr) (es os : List Ptr)
    → IsPosted w q o es os
    → IsPosted (handle e w) q o es os
