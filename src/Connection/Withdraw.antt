-- ===== src/Connection/Withdraw.antt =====
-- The first part of the closing of a connection: its events.
use libcn.Prelude.{
  ◌≡◌, ◌⊎◌, refl, Ptr, Bool, true, false, arith, ◌==◌, if◌then◌else◌, ◌∙◌, Bool-cases, inl, inr,
}
use libcn.World.{Event, World}
use package.libcn.Connection.{has_files, withdraw, deactivate, unpost, mark_closed}

-- What the events of a closed connection have in common.
pub record IsShut (e : Event) : Type 0 where
  pub closed : e.closed ≡ true
  pub posted : e.posted ≡ false

-- What no step before the free list changes.
pub record Kept (w v : World) : Type 0 where
  pub connections : v.connections ≡ w.connections
  pub head : v.free_connections ≡ w.free_connections
  pub free_n : v.free_connection_n ≡ w.free_connection_n
  pub links : v.reusable_links ≡ w.reusable_links
  pub queue : v.reusable_queue ≡ w.reusable_queue
  pub count : v.reusable_connections_n ≡ w.reusable_connections_n
  pub fds : v.closed_fds ≡ w.closed_fds
  pub has_files : has_files v ≡ has_files w
  pub files_n : v.files_n ≡ w.files_n

Kept-trans : (u v w : World) → Kept u v → Kept v w → Kept u w
Kept-trans u v w a b = record {
  connections = b.connections ∙ a.connections;
  head = b.head ∙ a.head;
  free_n = b.free_n ∙ a.free_n;
  links = b.links ∙ a.links;
  queue = b.queue ∙ a.queue;
  count = b.count ∙ a.count;
  fds = b.fds ∙ a.fds;
  has_files = b.has_files ∙ a.has_files;
  files_n = b.files_n ∙ a.files_n;
}

deactivate-Kept : (w : World) (c : Ptr) → Kept w (deactivate w c)
unfolding deactivate
deactivate-Kept w c = elim (Bool-cases (w.connections c).shared) [
  | inl e ↦ kept_when true e
  | inr e ↦ kept_when false e
]
  where
    kept_when : (b : Bool) → (w.connections c).shared ≡ b → Kept w (deactivate w c)
    kept_when b e = record {
      connections = ground arith;
      head = ground arith;
      free_n = ground arith;
      links = ground arith;
      queue = ground arith;
      count = ground arith;
      fds = ground arith;
      has_files = ground arith;
      files_n = ground arith;
    }

unpost-Kept : (w : World) (ev : Ptr) → Kept w (unpost w ev)
unfolding unpost
unpost-Kept w ev = record {
  connections = ground arith;
  head = ground arith;
  free_n = ground arith;
  links = ground arith;
  queue = ground arith;
  count = ground arith;
  fds = ground arith;
  has_files = ground arith;
  files_n = ground arith;
}

mark_closed-Kept : (w : World) (ev : Ptr) → Kept w (mark_closed w ev)
unfolding mark_closed
mark_closed-Kept w ev = record {
  connections = refl;
  head = refl;
  free_n = refl;
  links = refl;
  queue = refl;
  count = refl;
  fds = refl;
  has_files = refl;
  files_n = refl;
}

unpost-posted :
    (w : World) (ev d : Ptr)
    → ((unpost w ev).events d).posted ≡ (if d == ev then false else (w.events d).posted)
unfolding unpost
unpost-posted w ev d = ground arith

mark_closed-events :
    (w : World) (ev d : Ptr)
    → (((mark_closed w ev).events d).closed ≡ (if d == ev then true else (w.events d).closed))
      × (((mark_closed w ev).events d).posted ≡ (w.events d).posted)
unfolding mark_closed
mark_closed-events w ev d = (ground arith, ground arith)

pub withdraw-Kept : (w : World) (c : Ptr) → Kept w (withdraw w c)
unfolding withdraw
withdraw-Kept w c =
    let rev = (w.connections c).read in
    let wev = (w.connections c).write in
    let w1 = deactivate w c in
    let w2 = unpost (unpost w1 rev) wev in
    let unposted =
      Kept-trans w1 (unpost w1 rev) w2 (unpost-Kept w1 rev) (unpost-Kept (unpost w1 rev) wev) in
    let closed =
      Kept-trans w2 (mark_closed w2 rev) _ (mark_closed-Kept w2 rev)
        (mark_closed-Kept (mark_closed w2 rev) wev) in
    Kept-trans w w1 _ (deactivate-Kept w c) (Kept-trans w1 w2 _ unposted closed)

-- None of the steps changes an instance bit.
deactivate-instance :
    (w : World) (c d : Ptr) → ((deactivate w c).events d).instance_bit ≡ (w.events d).instance_bit
unfolding deactivate
deactivate-instance w c d = elim (Bool-cases (w.connections c).shared) [
  | inl e ↦ rw e refl
  | inr e ↦ rw e (ground arith)
]

unpost-instance :
    (w : World) (ev d : Ptr) → ((unpost w ev).events d).instance_bit ≡ (w.events d).instance_bit
unfolding unpost
unpost-instance w ev d = ground arith

mark_closed-instance :
    (w : World) (ev d : Ptr)
    → ((mark_closed w ev).events d).instance_bit ≡ (w.events d).instance_bit
unfolding mark_closed
mark_closed-instance w ev d = ground arith

pub withdraw-instance :
    (w : World) (c d : Ptr) → ((withdraw w c).events d).instance_bit ≡ (w.events d).instance_bit
unfolding withdraw
withdraw-instance w c d =
    let rev = (w.connections c).read in
    let wev = (w.connections c).write in
    let w1 = deactivate w c in
    let w2 = unpost (unpost w1 rev) wev in
    mark_closed-instance (mark_closed w2 rev) wev d
    ∙ mark_closed-instance w2 rev d
    ∙ unpost-instance (unpost w1 rev) wev d
    ∙ unpost-instance w1 rev d
    ∙ deactivate-instance w c d

pub withdraw-IsShut :
    (w : World) (c ev : Ptr)
    → ((ev == (w.connections c).read) ≡ true) ⊎ ((ev == (w.connections c).write) ≡ true)
    → IsShut ((withdraw w c).events ev)
unfolding withdraw
withdraw-IsShut w c ev which =
    let rev = (w.connections c).read in
    let wev = (w.connections c).write in
    let w1 = deactivate w c in
    let w2 = unpost (unpost w1 rev) wev in
    let (closed_last, posted_last) = mark_closed-events (mark_closed w2 rev) wev ev in
    let (closed_first, posted_first) = mark_closed-events w2 rev ev in
    let p1 = unpost-posted w1 rev ev in
    let p2 = unpost-posted (unpost w1 rev) wev ev in
    record { closed = ground arith; posted = ground arith }
