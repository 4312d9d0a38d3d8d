-- ===== src/Echo.antt =====
-- The handlers of main.c: `callback` for a new connection, and `myread` and `mywrite`, which send back
-- what they receive.
use libcn.Prelude.{
  ℕ, zero, suc, ◌+◌, Ptr, null, Bool, true, false, Option, none, some, List, [], ◌∷◌, not, ◌&&◌,
  ◌==◌, if◌then◌else◌, write, u64, sub64,
}
mod Once
mod Tests
use libcn.Alloc.{Libc}
use libcn.Pool.{Pool, palloc}
use libcn.Buf.{Buf, create_temp_buf}
use libcn.World.{Event, Connection, World, Handler, set_event, set_connection}
use libcn.Posted.{post_event}
use libcn.Timer.{event_add_timer}
use libcn.Connection.{close_connection, reusable_connection, stop_timer}
use libcn.Socket.{Return, Io, posix_send, posix_recv}
use libcn.Epoll.Control.{CtlOp, Interest, handle_read_event}

-- The state of a worker that the handlers use: the buffers and pools at their addresses, what `send` and
-- `recv` will return, and the memory that was given to them, the latest first.
pub record Server (K : Type 0) : Type 0 where
  pub kernel : K
  pub world : World
  pub libc : Libc
  pub buffers : Ptr → Buf
  pub pools : Ptr → Pool
  pub sends : List Return
  pub recvs : List Return
  pub sent_from : List (Ptr × ℕ)
  pub received_at : List (Ptr × ℕ)

abbrev pub set_buffer : {K : Type 0} → Server K → Ptr → Buf → Server K
set_buffer s b v = record s { buffers = write s.buffers b v }

-- `close_connection(c)`; `none` when the fuel for the timers runs out.
abbrev pub closing : {K : Type 0} → ℕ → Server K → Ptr → Option (Server K)
closing fuel s c = elim (close_connection fuel s.world c) [
  | none ↦ none
  | some w ↦ some (record s { world = w })
]

abbrev pub stopping : {K : Type 0} → Option (Server K) → Option (Bool × Server K)
stopping none = none
stopping (some s) = some (false, s)

-- How a round of the loop of `myread` ends: with a return, with the rest of the function, or with another
-- round.
pub data Turn : Type 0 where
  returns leaves repeats : Turn

-- The size that `myread` asks for.
abbrev pub read_size : ℕ
read_size = 1024

module _ {K : Type 0} (epoll_ctl : K → CtlOp → Option ℕ → Interest → Option K) where
  -- `handle_read_event(ev)`, whose failure is ignored.
  abbrev pub watch : Server K → Ptr → Server K
  watch s ev = elim (handle_read_event epoll_ctl s.kernel s.world ev) [
    | none ↦ s
    | some (k, w) ↦ record s { kernel = k; world = w }
  ]

  -- `n` bytes of `size` were sent, `n > 0`, and the timer is off.
  abbrev pub advance : Server K → Ptr → Ptr → ℕ → ℕ → Bool × Server K
  advance s wev b size n =
      let v = s.buffers b in
      if n == size
      then (false, watch s wev)
      else (true, set_buffer s b (record v { pos = u64 (v.pos + n) }))

  -- A round of the `do … while` of `mywrite` after `send`. The Boolean is whether the loop may go on.
  unfoldable pub wrote :
      ℕ
      → Server K
      → Ptr
      → Ptr
      → Ptr
      → ℕ
      → Option (Io × World × List Return)
      → Option (Bool × Server K)
  wrote fuel s wev c b size none = none
  wrote fuel s wev c b size (some (Io.failed, w, rs)) =
      stopping (closing fuel (record s { world = w; sends = rs }) c)
  wrote fuel s wev c b size (some (Io.again, w, rs)) =
      some (false, record s { world = w; sends = rs })
  wrote fuel s wev c b size (some (Io.done n, w, rs)) =
      let stopped : Option (Bool × Server K) = elim (stop_timer fuel w wev) [
        | none ↦ none
        | some w1 ↦ some (advance (record s { world = w1; sends = rs }) wev b size n)
      ] in
      if n == 0 then some (true, record s { world = w; sends = rs }) else stopped

  unfoldable pub write_round : ℕ → Server K → Ptr → Ptr → Ptr → ℕ → Option (Bool × Server K)
  unfolding wrote
  write_round fuel s wev c b size =
      wrote fuel (record s { sent_from = ((s.buffers b).pos, size) ∷ s.sent_from }) wev c b size
        (posix_send s.world c size s.sends)

  -- The `do … while` of `mywrite`, whose `size` stays what it was at the start.
  unfoldable pub write_loop : ℕ → Server K → Ptr → Ptr → Ptr → ℕ → Option (Server K)
  unfolding write_round
  write_loop zero s wev c b size = none
  write_loop (suc fuel) s wev c b size = elim (write_round fuel s wev c b size) [
    | none ↦ none
    | some (false, v) ↦ some v
    | some (true, v) ↦ elim (v.world.events wev).ready [
      | true ↦ write_loop fuel v wev c b size
      | false ↦ some v
    ]
  ]

  unfoldable pub mywrite : ℕ → Server K → Ptr → Option (Server K)
  unfolding write_loop
  mywrite fuel s wev =
      let e = s.world.events wev in
      let c = e.data_ptr in
      let b = (s.world.connections c).buffer in
      let size = sub64 (s.buffers b).last (s.buffers b).pos in
      let closed = closing fuel s c in
      let looped = write_loop fuel s wev c b size in
      if e.timedout
      then some s
      else if (s.world.connections c).close
      then closed
      else if b == null
      then some s
      else if size == 0
      then some s
      else looped

  -- The end of `myread`.
  unfoldable pub reply : ℕ → Server K → Ptr → Ptr → Option (Server K)
  unfolding mywrite
  reply fuel s rev c = mywrite fuel (record s { world = reusable_connection s.world c false }) rev

  -- A round of the `do … while` of `myread` after `recv`.
  unfoldable pub got :
      ℕ → Server K → Ptr → Ptr → Ptr → Option (Io × World × List Return) → Option (Turn × Server K)
  got fuel s rev c b none = none
  got fuel s rev c b (some (Io.failed, w, rs)) =
      elim (closing fuel (record s { world = w; recvs = rs }) c) [
        | none ↦ none
        | some v ↦ some (Turn.returns, v)
      ]
  got fuel s rev c b (some (Io.again, w, rs)) =
      some (Turn.leaves, record s { world = w; recvs = rs })
  got fuel s rev c b (some (Io.done n, w, rs)) =
      let v = record s { world = w; recvs = rs } in
      some (
        (if (w.events rev).ready then Turn.repeats else Turn.leaves),
        set_buffer v b (record (v.buffers b) { last = u64 ((v.buffers b).last + n) }),
      )

  -- `rdhup` is `use_epoll_rdhup`.
  unfoldable pub read_round : Bool → ℕ → Server K → Ptr → Ptr → Ptr → Option (Turn × Server K)
  unfolding got
  read_round rdhup fuel s rev c b =
      got fuel (record s { received_at = ((s.buffers b).last, read_size) ∷ s.received_at }) rev c b
        (posix_recv rdhup s.world c read_size s.recvs)

  unfoldable pub read_loop : Bool → ℕ → Server K → Ptr → Ptr → Ptr → Option (Server K)
  unfolding read_round reply
  read_loop rdhup zero s rev c b = none
  read_loop rdhup (suc fuel) s rev c b = elim (read_round rdhup fuel s rev c b) [
    | none ↦ none
    | some (Turn.returns, v) ↦ some v
    | some (Turn.leaves, v) ↦ reply fuel v rev c
    | some (Turn.repeats, v) ↦ read_loop rdhup fuel v rev c b
  ]

  -- The part of `myread` that sees to the connection's buffer, after the request for one.
  unfoldable pub with_buffer :
      Bool → ℕ → Server K → Ptr → Ptr → Option Buf × Pool × Libc → Option (Server K)
  unfolding read_loop
  with_buffer rdhup fuel s rev c (none, p, libc) =
      closing fuel (record s { libc = libc; pools = write s.pools (s.world.connections c).pool p })
        c
  with_buffer rdhup fuel s rev c (some b, p, libc) =
      let v = record s { libc = libc; pools = write s.pools (s.world.connections c).pool p } in
      let w = set_connection s.world c (record (s.world.connections c) { buffer = b.at }) in
      read_loop rdhup fuel (set_buffer (record v { world = w }) b.at b) rev c b.at

  -- The same for a buffer without memory.
  unfoldable pub with_memory :
      Bool → ℕ → Server K → Ptr → Ptr → Ptr → Option Ptr × Pool × Libc → Option (Server K)
  unfolding read_loop
  with_memory rdhup fuel s rev c b (none, p, libc) =
      let v = set_buffer s b (record (s.buffers b) { start = null }) in
      closing fuel (record v { libc = libc; pools = write s.pools (s.world.connections c).pool p })
        c
  with_memory rdhup fuel s rev c b (some a, p, libc) =
      let v =
        set_buffer s b
          (record (s.buffers b) { start = a; pos = a; last = a; end = u64 (a + read_size) }) in
      read_loop rdhup fuel
        (record v { libc = libc; pools = write s.pools (s.world.connections c).pool p }) rev c b

  unfoldable pub myread : Bool → ℕ → Server K → Ptr → Option (Server K)
  unfolding with_buffer with_memory
  myread rdhup fuel s rev =
      let e = s.world.events rev in
      let c = e.data_ptr in
      let b = (s.world.connections c).buffer in
      let pool = s.pools (s.world.connections c).pool in
      let closed = closing fuel s c in
      let fresh = with_buffer rdhup fuel s rev c (create_temp_buf s.libc pool read_size) in
      let refilled = with_memory rdhup fuel s rev c b (palloc s.libc pool read_size) in
      let looped = read_loop rdhup fuel s rev c b in
      if e.timedout
      then some s
      else if (s.world.connections c).close
      then closed
      else if b == null
      then fresh
      else if (s.buffers b).start == null
      then refilled
      else looped

  -- The part of `callback` for an event that is not ready, after `event_add_timer`.
  unfoldable pub waiting : ℕ → Server K → Ptr → World → Option (Server K)
  waiting fuel s c w =
      let w1 = reusable_connection w c true in
      let closed = closing fuel (record s { world = w1 }) c in
      elim (handle_read_event epoll_ctl s.kernel w1 (w1.connections c).read) [
        | none ↦ closed
        | some (k, w2) ↦ some (record s { kernel = k; world = w2 })
      ]

  -- `timeout` is `c->listening->post_accept_timeout`.
  unfoldable pub callback : Bool → ℕ → Server K → Bool → ℕ → Ptr → Option (Server K)
  unfolding waiting myread
  callback rdhup fuel s use_accept_mutex timeout c =
      let rev = (s.world.connections c).read in
      let wev = (s.world.connections c).write in
      let w1 = set_event s.world rev (record (s.world.events rev) { handler = Handler.myread }) in
      let w2 = set_event w1 wev (record (w1.events wev) { handler = Handler.mywrite }) in
      let timed = event_add_timer fuel w2 rev timeout in
      let posted : Option (Server K) = elim timed [
        | none ↦ none
        | some w3 ↦ some (record s { world = post_event w3 rev w3.posted_events })
      ] in
      let read = myread rdhup fuel (record s { world = w2 }) rev in
      let waits : Option (Server K) = elim timed [ none ↦ none | some w3 ↦ waiting fuel s c w3 ] in
      if (w2.events rev).ready then (if use_accept_mutex then posted else read) else waits
