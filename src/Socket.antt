-- ===== src/Socket.antt =====
-- `posix_send` and `posix_recv` of event_accept.c, and `send_lowat` of connection.c.
use libcn.Prelude.{
  ℕ, suc, ◌+◌, Ptr, Bool, true, false, Option, none, some, List, [], ◌∷◌, not, ◌&&◌, ◌||◌, ◌==◌,
  ltb, if◌then◌else◌,
}
pub mod Answered
mod Tests
use libcn.World.{Event, Connection, World, set_event, set_connection}

-- What `send` or `recv` returns: a number of bytes, or -1 with `errno`.
pub data Return : Type 0 where
  bytes : ℕ → Return
  eagain eintr other_error : Return

-- What `posix_send` and `posix_recv` return: a number of bytes, -2 or -1.
pub data Io : Type 0 where
  done : ℕ → Io
  again failed : Io

abbrev pub set_ready : World → Ptr → Bool → World
set_ready w ev b = set_event w ev (record (w.events ev) { ready = b })

-- The `for (;;)` over the returns of `send`; `none` when they run out.
unfoldable pub posix_send : World → Ptr → ℕ → List Return → Option (Io × World × List Return)
posix_send w c size [] = none
posix_send w c size (eagain ∷ rs) = some (Io.again, set_ready w (w.connections c).write false, rs)
posix_send w c size (eintr ∷ rs) = posix_send (set_ready w (w.connections c).write false) c size rs
posix_send w c size (other_error ∷ rs) =
    let wev = (w.connections c).write in
    some (Io.failed, set_event w wev (record (w.events wev) { error = true }), rs)
posix_send w c size (bytes n ∷ rs) =
    let wev = (w.connections c).write in
    let w1 = if ltb n size then set_ready w wev false else w in
    let w2 =
      set_connection w1 c (record (w1.connections c) { sent = (w1.connections c).sent + n }) in
    some (done n, if n == 0 then set_ready w wev false else w2, rs)

-- The end of a read of `n` bytes, `n > 0`.
abbrev pub received : Bool → World → Ptr → ℕ → ℕ → World
received rdhup w rev size n =
    let e = w.events rev in
    if rdhup && ltb n size
    then set_event w rev (record e { ready = e.ready && e.pending_eof; available = false })
    else w

-- The `do … while` over the returns of `recv`; `none` when they run out. `rdhup` is `use_epoll_rdhup`.
unfoldable pub recv_loop : Bool → World → Ptr → ℕ → List Return → Option (Io × World × List Return)
recv_loop rdhup w rev size [] = none
recv_loop rdhup w rev size (eagain ∷ rs) = some (Io.again, set_ready w rev false, rs)
recv_loop rdhup w rev size (eintr ∷ rs) = recv_loop rdhup w rev size rs
recv_loop rdhup w rev size (other_error ∷ rs) =
    some (Io.failed, set_event w rev (record (w.events rev) { ready = false; error = true }), rs)
recv_loop rdhup w rev size (bytes n ∷ rs) =
    let ended = set_event w rev (record (w.events rev) { ready = false; eof = true }) in
    some (done n, if n == 0 then ended else received rdhup w rev size n, rs)

unfoldable pub posix_recv : Bool → World → Ptr → ℕ → List Return → Option (Io × World × List Return)
unfolding recv_loop
posix_recv rdhup w c size rs =
    let rev = (w.connections c).read in
    let result = recv_loop rdhup w rev size rs in
    if not (w.events rev).available && not (w.events rev).pending_eof
    then some (Io.again, set_ready w rev false, rs)
    else result

-- `ok` is whether `setsockopt` succeeds; the Boolean is whether the return is 0.
unfoldable pub send_lowat : Bool → World → Ptr → ℕ → Bool × World
send_lowat ok w c lowat =
    if lowat == 0 || (w.connections c).sndlowat
    then (true, w)
    else if ok
    then (true, set_connection w c (record (w.connections c) { sndlowat = true }))
    else (false, w)
