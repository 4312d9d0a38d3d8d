-- ===== src/Connection.antt =====
-- connection.c: the free list of connections, the reusable ones, and closing.
pub mod Free
pub mod Reusable
mod Withdraw
mod Steps
pub mod Closing
pub mod Fixture
mod Tests
use libcn.Prelude.{
  ℕ, zero, suc, ◌+◌, ◌-◌, ◌/◌, ◌%◌, ◌^◌, Ptr, null, Bool, true, false, Option, none, some, List, [],
  ◌∷◌, leb, ltb, ◌==◌, if◌then◌else◌, write, not, ◌&&◌, u32, sub32, min, max,
}
use libcn.Queue.{Links, queue_remove, queue_insert_head, queue_empty, queue_last}
use libcn.World.{Event, zero_event, Connection, zero_connection, World, set_event, set_connection}
use libcn.Timer.{event_del_timer}

-- The descriptor -1 is past the end of `files` as a `uint32_t`, and `files` is NULL in this program.
abbrev pub files_entry : World → Option ℕ → Ptr
files_entry w fd = elim w.files [
  | none ↦ null
  | some files ↦ elim fd [ none ↦ null | some s ↦ files s ]
]

abbrev pub has_files : World → Bool
has_files w = elim w.files [ none ↦ false | some _ ↦ true ]

abbrev pub set_file : World → Option ℕ → Ptr → World
set_file w fd c = elim w.files [
  | none ↦ w
  | some files ↦ elim fd [ none ↦ w | some s ↦ record w { files = some (write files s c) } ]
]

unfoldable pub free_connection : World → Ptr → World
free_connection w c =
    let w1 = set_connection w c (record (w.connections c) { data_ptr = w.free_connections }) in
    let w2 = record w1 {
      free_connections = c;
      free_connection_n = u32 (w1.free_connection_n + 1);
    } in
    let fd = (w2.connections c).fd in
    if has_files w2 && files_entry w2 fd == c then set_file w2 fd null else w2

unfoldable pub reusable_connection : World → Ptr → Bool → World
unfolding queue_remove queue_insert_head
reusable_connection w c reusable =
    let w1 =
      if (w.connections c).reusable
      then record w {
        reusable_links = queue_remove w.reusable_links c;
        reusable_connections_n = sub32 w.reusable_connections_n 1;
      }
      else w in
    let w2 = set_connection w1 c (record (w1.connections c) { reusable = reusable }) in
    if reusable
    then record w2 {
      reusable_links = queue_insert_head w2.reusable_links w2.reusable_queue c;
      reusable_connections_n = u32 (w2.reusable_connections_n + 1);
    }
    else w2

-- The `for` of `drain_connections`: the connections that have waited longest are closed by their own
-- read handler, which `handle` runs.
unfoldable pub drain_loop : ℕ → (Ptr → World → Option World) → World → Option World
unfolding queue_empty
drain_loop zero handle w = some w
drain_loop (suc n) handle w = elim (queue_empty w.reusable_links w.reusable_queue) [
  | true ↦ some w
  | false ↦
      let c = queue_last w.reusable_links w.reusable_queue in
      let w1 = set_connection w c (record (w.connections c) { close = true }) in
      elim (handle (w1.connections c).read w1) [ none ↦ none | some w2 ↦ drain_loop n handle w2 ]
]

-- `c_max(c_min(32, n / 8), 1)`.
abbrev pub drain_count : ℕ → ℕ
drain_count n = max (min 32 (n / 8)) 1

unfoldable pub drain_connections : (Ptr → World → Option World) → World → Option World
unfolding drain_loop
drain_connections handle w = drain_loop (drain_count w.reusable_connections_n) handle w

-- The part of `get_connection` from the moment at which the free list is not empty: `c` is taken
-- from it, cleared and given the descriptor, and the instance bit of its events is flipped.
unfoldable pub take_connection : World → ℕ → World
take_connection w s =
    let c = w.free_connections in
    let w1 = record w {
      free_connections = (w.connections c).data_ptr;
      free_connection_n = sub32 w.free_connection_n 1;
    } in
    let w2 =
      if has_files w1 && files_entry w1 (some s) == null then set_file w1 (some s) c else w1 in
    let rev = (w2.connections c).read in
    let wev = (w2.connections c).write in
    let w3 =
      set_connection w2 c (record zero_connection { read = rev; write = wev; fd = some s }) in
    let instance_bit = (w3.events rev).instance_bit in
    let w4 = set_event (set_event w3 rev zero_event) wev zero_event in
    let w5 = set_event w4 rev (record (w4.events rev) { instance_bit = not instance_bit }) in
    let w6 = set_event w5 wev (record (w5.events wev) { instance_bit = not instance_bit }) in
    let w7 = set_event w6 rev (record (w6.events rev) { data_ptr = c }) in
    set_event w7 wev (record (w7.events wev) { data_ptr = c; write = true })

-- The connection and the state; `null` where there is none.
unfoldable pub get_connection : (Ptr → World → Option World) → World → ℕ → Option (Ptr × World)
unfolding drain_connections take_connection
get_connection handle w s =
    if has_files w && leb w.files_n s
    then some (null, w)
    else elim (if w.free_connections == null then drain_connections handle w else some w) [
      | none ↦ none
      | some w1 ↦
          if w1.free_connections == null
          then some (null, w1)
          else some (w1.free_connections, take_connection w1 s)
    ]

-- `if (ev->timer_set) event_del_timer(ev)`.
abbrev pub stop_timer : ℕ → World → Ptr → Option World
stop_timer fuel w ev = if (w.events ev).timer_set then event_del_timer fuel w ev else some w

-- `if (ev->posted) delete_posted_event(ev)`.
unfoldable pub unpost : World → Ptr → World
unfolding queue_remove
unpost w ev =
    if (w.events ev).posted
    then (let w1 = set_event w ev (record (w.events ev) { posted = false }) in
        record w1 { posted_links = queue_remove w1.posted_links ev })
    else w

-- `epoll_del_connection(c, CLOSE_EVENT)`, called `if (!c->shared)`: closing the descriptor takes it
-- out of epoll, and the events become inactive.
unfoldable pub deactivate : World → Ptr → World
deactivate w c =
    let rev = (w.connections c).read in
    let wev = (w.connections c).write in
    if (w.connections c).shared
    then w
    else (let v = set_event w rev (record (w.events rev) { active = false }) in
        set_event v wev (record (v.events wev) { active = false }))

unfoldable pub mark_closed : World → Ptr → World
mark_closed w ev = set_event w ev (record (w.events ev) { closed = true })

-- The part of `close_connection` between the timers and the queues of connections.
unfoldable pub withdraw : World → Ptr → World
withdraw w c =
    let rev = (w.connections c).read in
    let wev = (w.connections c).write in
    mark_closed (mark_closed (unpost (unpost (deactivate w c) rev) wev) rev) wev

-- The end of `close_connection`: the descriptor is taken from the connection and closed.
unfoldable pub close_fd : World → Ptr → World
close_fd w c =
    let w1 = set_connection w c (record (w.connections c) { fd = none }) in
    elim (w.connections c).fd [ none ↦ w1 | some s ↦ record w1 { closed_fds = s ∷ w1.closed_fds } ]

-- The part of `close_connection` after the timers.
unfoldable pub close_rest : World → Ptr → World
close_rest w c = close_fd (free_connection (reusable_connection (withdraw w c) c false) c) c

unfoldable pub close_connection : ℕ → World → Ptr → Option World
close_connection fuel w c = elim (w.connections c).fd [
  | none ↦ some w
  | some _ ↦ elim (stop_timer fuel w (w.connections c).read) [
    | none ↦ none
    | some w1 ↦ elim (stop_timer fuel w1 (w1.connections c).write) [
      | none ↦ none
      | some w2 ↦ some (close_rest w2 c)
    ]
  ]
]
