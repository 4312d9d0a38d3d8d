-- ===== src/Epoll.antt =====
-- epoll_event.c: the events that `epoll_wait` returns, handed to the events of the connections.
mod Stale
pub mod Control
mod Interest
pub mod Kernel
mod Tests
use libcn.Prelude.{
  Ptr, Bool, true, false, Option, none, some, List, [], ◌∷◌, not, ◌&&◌, ◌||◌, if◌then◌else◌,
}
use libcn.World.{Event, Connection, World, set_event}
use libcn.Posted.{post_event}

-- `struct epoll_event`: the connection and the instance bit of `data.ptr`, and the bits of `events`
-- that the program reads.
pub record EpollEvent : Type 0 where
  pub connection : Ptr
  pub instance_bit : Bool
  pub pollin : Bool
  pub pollout : Bool
  pub err : Bool
  pub hup : Bool
  pub rdhup : Bool

-- `c->fd == -1`.
abbrev pub is_closed : World → Ptr → Bool
is_closed w c = elim (w.connections c).fd [ none ↦ true | some _ ↦ false ]

abbrev pub differ : Bool → Bool → Bool
differ a b = if a then not b else b

-- `c->fd == -1 || ev->instance != instance`.
abbrev pub is_stale : World → Ptr → Ptr → Bool → Bool
is_stale w c ev instance_bit = is_closed w c || differ (w.events ev).instance_bit instance_bit

-- The reading half of a round: `flags & POST_EVENTS` posts the event, to the queue of accept events if
-- it is one, or its handler runs.
unfoldable pub process_read :
    (Ptr → World → Option World) → Bool → World → EpollEvent → Option World
process_read handle post w ee =
    let rev = (w.connections ee.connection).read in
    let more = ee.err || ee.hup in
    if (ee.pollin || more) && (w.events rev).active
    then (let w1 = set_event w rev (record (w.events rev) {
      ready = true;
      pending_eof = if ee.rdhup then true else (w.events rev).pending_eof;
      available = true;
    }) in
        let queue = if (w1.events rev).accept then w1.posted_accept_events else w1.posted_events in
        let handled : Option World = elim post [ true ↦ none | false ↦ handle rev w1 ] in
        if post then some (post_event w1 rev queue) else handled)
    else some w

-- The writing half, after the handler of the read event may have closed the connection.
unfoldable pub process_write :
    (Ptr → World → Option World) → Bool → World → EpollEvent → Option World
process_write handle post w ee =
    let c = ee.connection in
    let wev = (w.connections c).write in
    let more = ee.err || ee.hup in
    if ((ee.pollout || more) && (w.events wev).active) && not (is_stale w c wev ee.instance_bit)
    then (let w1 = set_event w wev (record (w.events wev) { ready = true }) in
        let handled : Option World = elim post [ true ↦ none | false ↦ handle wev w1 ] in
        if post then some (post_event w1 wev w1.posted_events) else handled)
    else some w

-- A round of the `for` of `epoll_process_events`.
unfoldable pub process_event :
    (Ptr → World → Option World) → Bool → World → EpollEvent → Option World
process_event handle post w ee =
    if is_stale w ee.connection (w.connections ee.connection).read ee.instance_bit
    then some w
    else elim (process_read handle post w ee) [
      | none ↦ none
      | some w1 ↦ process_write handle post w1 ee
    ]

-- The `for`, over the events that `epoll_wait` returned.
unfoldable pub process_all :
    (Ptr → World → Option World) → Bool → World → List EpollEvent → Option World
process_all handle post w [] = some w
process_all handle post w (ee ∷ ees) = elim (process_event handle post w ee) [
  | none ↦ none
  | some w1 ↦ process_all handle post w1 ees
]
