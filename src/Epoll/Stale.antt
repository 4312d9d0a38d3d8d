-- ===== src/Epoll/Stale.antt =====
-- The guard against events of a connection that was closed, and perhaps taken again, after
-- `epoll_wait` returned them.
use libcn.Prelude.{
  ℕ, ◌+◌, ◌^◌, ◌<◌, ◌≡◌, ◌≢◌, refl, Ptr, null, Bool, true, false, Option, none, some, List, length,
  has, not, ◌==◌, ap, sym, ◌∙◌, arith,
}
use libcn.World.{Event, Connection, World}
use libcn.Connection.{take_connection, get_connection, close_connection}
use libcn.Connection.Free.{IsFree, Fits, get_connection-Taken}
use libcn.Connection.Reusable.{IsReusable}
use libcn.Connection.Closing.{close_connection-Closed}
use package.libcn.Epoll.{EpollEvent, is_closed, is_stale, differ, process_event}

process_event-stale :
    (handle : Ptr → World → Option World) (post : Bool) (w : World) (ee : EpollEvent)
    → is_stale w ee.connection (w.connections ee.connection).read ee.instance_bit ≡ true
    → process_event handle post w ee ≡ some w
unfolding process_event
process_event-stale handle post w ee e = rw (e, process_event) refl

stale_when_closed :
    (w : World) (c ev : Ptr) (bit : Bool) → (w.connections c).fd ≡ none → is_stale w c ev bit ≡ true
stale_when_closed w c ev bit e = rw (e, is_closed) refl

differ_not : (b : Bool) → differ (not b) b ≡ true
differ_not true = refl
differ_not false = refl

stale_when_flipped :
    (w : World) (c ev : Ptr) (bit : Bool)
    → (w.events ev).instance_bit ≡ not bit
    → is_stale w c ev bit ≡ true
stale_when_flipped w c ev bit e = rw (e, differ_not bit) (ground arith)

-- In a state with a sound free list and a sound reusable queue, let an open connection that is not
-- free, with two different events without timers, be closed after epoll has returned an event with
-- its instance bit. A round for that event does nothing while the connection is free, and nothing
-- after `get_connection` has taken it again, for whatever descriptor that fits: no handler of the
-- new owner sees an event of the old one.
pub process_event-close_connection :
    (handle : Ptr → World → Option World) (post : Bool) (fuel : ℕ) (w : World) (ee : EpollEvent)
    (s s' : ℕ) (cs rs : List Ptr)
    → (w.connections ee.connection).fd ≡ some s
    → ee.instance_bit ≡ (w.events (w.connections ee.connection).read).instance_bit
    → (w.events (w.connections ee.connection).read).timer_set ≡ false
    → (w.events (w.connections ee.connection).write).timer_set ≡ false
    → ((w.connections ee.connection).read == (w.connections ee.connection).write) ≡ false
    → Fits w s'
    → IsFree w cs
    → IsReusable w rs
    → ee.connection ≢ null
    → (ee.connection == w.reusable_queue) ≡ false
    → has ee.connection cs ≡ false
    → length cs + 1 < 2 ^ 32
    → length rs + 1 < 2 ^ 32
    → (v : World) × (close_connection fuel w ee.connection ≡ some v)
      × (process_event handle post v ee ≡ some v)
      × (u : World) × (get_connection handle v s' ≡ some (ee.connection, u))
      × (process_event handle post u ee ≡ some u)
process_event-close_connection handle post fuel w ee s s' cs rs e bit rt wt apart fits f r n o out
      few_free few =
    let c = ee.connection in
    let (v, closing, z, _) =
      close_connection-Closed fuel w c s cs rs e rt wt f r n o out few_free few in
    let idle =
      process_event-stale handle post v ee
        (stale_when_closed v c (v.connections c).read ee.instance_bit z.fd) in
    let apart_now : ((v.connections c).read == (v.connections c).write) ≡ false =
      rw (z.same_read, z.same_write) apart in
    let (taking, t, _) = get_connection-Taken handle v c cs s' z.free (z.fits s' fits) apart_now in
    let u = take_connection v s' in
    let flipped =
      ap (λ (ev : Event). ev.instance_bit) t.read_event
      ∙ ap not (
          z.same_instance (v.connections c).read
          ∙ ap (λ (p : Ptr). (w.events p).instance_bit) z.same_read
          ∙ sym bit) in
    let same_read = ap (λ (x : Connection). x.read) t.connection in
    let ignored = process_event-stale handle post u ee (
      stale_when_flipped u c (u.connections c).read ee.instance_bit
        (ap (λ (p : Ptr). (u.events p).instance_bit) same_read ∙ flipped)) in
    (v, closing, idle, u, taking, ignored)
