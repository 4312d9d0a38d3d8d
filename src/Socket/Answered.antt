-- ===== src/Socket/Answered.antt =====
-- `posix_send` and `posix_recv` end with the first return that is no interruption.
use libcn.Prelude.{
  ℕ, zero, suc, ◌+◌, ◌≡◌, refl, Ptr, Bool, true, false, Option, some, List, [], ◌∷◌, ◌++◌, arith,
  not, ◌&&◌, ◌||◌, ◌==◌, ltb, ◌∙◌,
}
use libcn.World.{World}
use package.libcn.Socket.{
  Return, bytes, eagain, eintr, other_error, Io, done, again, failed, set_ready, posix_send,
  recv_loop, posix_recv,
}

-- `n` interruptions.
abbrev pub interrupted : ℕ → List Return
interrupted zero = []
interrupted (suc n) = eintr ∷ interrupted n

-- A return that ends the loop.
abbrev pub ends : Return → Bool
ends (bytes n) = true
ends eagain = true
ends eintr = false
ends other_error = true

abbrev pub as_io : Return → Io
as_io (bytes n) = done n
as_io eagain = again
as_io eintr = again
as_io other_error = failed

abbrev pub byte_count : Return → ℕ
byte_count (bytes n) = n
byte_count eagain = 0
byte_count eintr = 0
byte_count other_error = 0

abbrev pub is_error : Return → Bool
is_error (bytes n) = false
is_error eagain = false
is_error eintr = false
is_error other_error = true

abbrev pub is_end : Return → Bool
is_end (bytes n) = n == 0
is_end eagain = false
is_end eintr = false
is_end other_error = false

-- What a call of `posix_send` that ends with the return `r` of `send` for `size` bytes leaves.
pub record Sent (w v : World) (c : Ptr) (size : ℕ) (r : Return) : Type 0 where
  pub counted : (v.connections c).sent ≡ (w.connections c).sent + byte_count r
  pub error :
      (v.events (w.connections c).write).error
      ≡ (is_error r || (w.events (w.connections c).write).error)
  pub unready :
      ((v.events (w.connections c).write).ready && (ltb (byte_count r) size && not (is_error r)))
      ≡ false
  pub timer :
      (v.events (w.connections c).write).timer_set ≡ (w.events (w.connections c).write).timer_set
  pub others : (ev : Ptr) → (ev == (w.connections c).write) ≡ false → v.events ev ≡ w.events ev

abbrev Rest : World → Ptr → ℕ → Return → List Return → Option (Io × World × List Return) → Type 0
Rest w c size r rs o = (v : World) × (o ≡ some (as_io r, v, rs)) × Sent w v c size r

Sent-start :
    (w v : World) (c : Ptr) (size : ℕ) (r : Return)
    → Sent (set_ready w (w.connections c).write false) v c size r
    → Sent w v c size r
Sent-start w v c size r s = record {
  counted = s.counted;
  error = s.error ∙ ground arith;
  unready = s.unready;
  timer = s.timer ∙ ground arith;
  others = λ ev n. s.others ev n ∙ ground arith;
}

Sent-end :
    (w : World) (c : Ptr) (size : ℕ) (r : Return) (rs : List Return)
    → ends r ≡ true
    → Rest w c size r rs (posix_send w c size (r ∷ rs))
unfolding posix_send
Sent-end w c size eintr rs e = absurd (ground arith)
Sent-end w c size eagain rs e = (
  _,
  refl,
  record {
    counted = omega arith;
    error = ground arith;
    unready = ground arith;
    timer = ground arith;
    others = λ ev n. ground arith;
  },
)
Sent-end w c size other_error rs e = (
  _,
  refl,
  record {
    counted = omega arith;
    error = ground arith;
    unready = ground arith;
    timer = ground arith;
    others = λ ev n. ground arith;
  },
)
Sent-end w c size (bytes n) rs e = (
  _,
  refl,
  record {
    counted = ground arith;
    error = ground arith;
    unready = ground arith;
    timer = ground arith;
    others = λ ev n. ground arith;
  },
)

-- After any number of interruptions `posix_send` ends with the first other return of `send`, which it
-- returns; it counts the bytes, sets the error bit just on an error, clears `ready` where fewer bytes
-- than asked for were sent, and writes no other event.
pub posix_send-Sent :
    (k : ℕ) (w : World) (c : Ptr) (size : ℕ) (r : Return) (rs : List Return)
    → ends r ≡ true
    → (v : World) × (posix_send w c size (interrupted k ++ r ∷ rs) ≡ some (as_io r, v, rs))
      × Sent w v c size r
unfolding posix_send
posix_send-Sent zero w c size r rs e = Sent-end w c size r rs e
posix_send-Sent (suc k) w c size r rs e =
    let (v, f, s) = posix_send-Sent k (set_ready w (w.connections c).write false) c size r rs e in
    (v, f, Sent-start w v c size r s)

-- What a call of `posix_recv` that ends with the return `r` of `recv` leaves: `ready` is cleared but for
-- a read that may have left more, and the end of the stream and an error are marked.
pub record Received (rdhup : Bool) (w v : World) (rev : Ptr) (size : ℕ) (r : Return) : Type 0 where
  pub connections : v.connections ≡ w.connections
  pub ready : (v.events rev).ready ≡ (
      not (byte_count r == 0)
      && ((w.events rev).ready
          && (not rdhup || (not (ltb (byte_count r) size) || (w.events rev).pending_eof))))
  pub eof : (v.events rev).eof ≡ (is_end r || (w.events rev).eof)
  pub error : (v.events rev).error ≡ (is_error r || (w.events rev).error)
  pub available : (v.events rev).available ≡ (
      (w.events rev).available
      && not (rdhup && (not (byte_count r == 0) && ltb (byte_count r) size)))
  pub others : (ev : Ptr) → (ev == rev) ≡ false → v.events ev ≡ w.events ev

abbrev RestRecv :
    Bool → World → Ptr → ℕ → Return → List Return → Option (Io × World × List Return) → Type 0
RestRecv rdhup w rev size r rs o =
    (v : World) × (o ≡ some (as_io r, v, rs)) × Received rdhup w v rev size r

Received-end :
    (rdhup : Bool) (w : World) (rev : Ptr) (size : ℕ) (r : Return) (rs : List Return)
    → ends r ≡ true
    → RestRecv rdhup w rev size r rs (recv_loop rdhup w rev size (r ∷ rs))
unfolding recv_loop
Received-end rdhup w rev size eintr rs e = absurd (ground arith)
Received-end rdhup w rev size eagain rs e = (
  _,
  refl,
  record {
    connections = refl;
    ready = ground arith;
    eof = ground arith;
    error = ground arith;
    available = ground arith;
    others = λ ev n. ground arith;
  },
)
Received-end rdhup w rev size other_error rs e = (
  _,
  refl,
  record {
    connections = refl;
    ready = ground arith;
    eof = ground arith;
    error = ground arith;
    available = ground arith;
    others = λ ev n. ground arith;
  },
)
Received-end rdhup w rev size (bytes n) rs e = (
  _,
  refl,
  record {
    connections = ground arith;
    ready = ground arith;
    eof = ground arith;
    error = ground arith;
    available = ground arith;
    others = λ ev n. ground arith;
  },
)

recv_loop-Received :
    (k : ℕ) (rdhup : Bool) (w : World) (rev : Ptr) (size : ℕ) (r : Return) (rs : List Return)
    → ends r ≡ true
    → RestRecv rdhup w rev size r rs (recv_loop rdhup w rev size (interrupted k ++ r ∷ rs))
unfolding recv_loop
recv_loop-Received zero rdhup w rev size r rs e = Received-end rdhup w rev size r rs e
recv_loop-Received (suc k) rdhup w rev size r rs e = recv_loop-Received k rdhup w rev size r rs e

-- Where there may be data to read, `posix_recv` ends after any number of interruptions with the first
-- other return of `recv`, which it returns; an end of the stream or an error is marked and clears `ready`;
-- under EPOLLRDHUP a short read clears `available`, and also `ready` unless the end of the stream is
-- pending; no connection and no other event changes.
pub posix_recv-Received :
    (k : ℕ) (rdhup : Bool) (w : World) (c : Ptr) (size : ℕ) (r : Return) (rs : List Return)
    → ends r ≡ true
    → ((w.events (w.connections c).read).available || (w.events (w.connections c).read).pending_eof)
      ≡ true
    → (v : World) × (posix_recv rdhup w c size (interrupted k ++ r ∷ rs) ≡ some (as_io r, v, rs))
      × Received rdhup w v (w.connections c).read size r
unfolding posix_recv
posix_recv-Received k rdhup w c size r rs e open_for =
    let rev = (w.connections c).read in
    let (v, f, s) = recv_loop-Received k rdhup w rev size r rs e in
    let going : (not (w.events rev).available && not (w.events rev).pending_eof) ≡ false =
      ground arith in
    (v, rw going f, s)
