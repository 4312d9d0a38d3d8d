-- ===== src/Echo/Once.antt =====
-- `mywrite` asks `send` once for what is left in the buffer.
use libcn.Prelude.{
  ℕ, suc, ◌+◌, ◌^◌, ◌≤◌, ◌<◌, ◌≡◌, refl, ◌⊎◌, inl, inr, Ptr, null, Bool, true, false, Option, none,
  some, List, ◌∷◌, ◌++◌, arith, not, ◌&&◌, ◌==◌, ltb, if◌then◌else◌, ◌∙◌, ap, Bool-cases, ==→eq,
  u64, sub64,
}
use libcn.World.{World}
use libcn.Connection.{stop_timer}
use libcn.Epoll.Control.{CtlOp, Interest, handle_read_event}
use libcn.Socket.{Return, bytes, eagain, eintr, other_error, Io, posix_send}
use libcn.Socket.Answered.{interrupted, ends, as_io, byte_count, is_error, Sent, posix_send-Sent}
use package.libcn.Echo.{Server, watch, advance, wrote, write_round, write_loop, mywrite}

module _ {K : Type 0} (epoll_ctl : K → CtlOp → Option ℕ → Interest → Option K) where
  -- After one `send` of `n` of the `size` bytes at `pos`.
  pub record WroteOnce (s v : Server K) (b : Ptr) (size n : ℕ) : Type 0 where
    pub asked : v.sent_from ≡ ((s.buffers b).pos, size) ∷ s.sent_from
    pub last : (v.buffers b).last ≡ (s.buffers b).last
    pub pos : (v.buffers b).pos ≡ (if n == size then (s.buffers b).pos else (s.buffers b).pos + n)
    pub inside : (v.buffers b).pos ≤ (v.buffers b).last

  watch-buffers :
      (s : Server K) (ev : Ptr)
      → ((watch epoll_ctl s ev).buffers ≡ s.buffers)
        × ((watch epoll_ctl s ev).sent_from ≡ s.sent_from)
        × ((watch epoll_ctl s ev).sends ≡ s.sends)
  watch-buffers s ev = answered (handle_read_event epoll_ctl s.kernel s.world ev)
    where
      answered :
          (o : Option (K × World))
          → (let v : Server K = elim o [
            | none ↦ s
            | some (k, w) ↦ record s { kernel = k; world = w }
          ] in
              (v.buffers ≡ s.buffers) × (v.sent_from ≡ s.sent_from) × (v.sends ≡ s.sends))
      answered none = (refl, refl, refl)
      answered (some (k, w)) = (refl, refl, refl)

  -- The state in which `send` is called.
  abbrev asking : Server K → Ptr → ℕ → Server K
  asking s b size = record s { sent_from = ((s.buffers b).pos, size) ∷ s.sent_from }

  advance-WroteOnce :
      (s : Server K) (wev b : Ptr) (size n : ℕ) (w : World) (rs : List Return)
      → (s.buffers b).pos + size ≡ (s.buffers b).last
      → (s.buffers b).last < 2 ^ 64
      → n ≤ size
      → (let v =
            (advance epoll_ctl
              (record (asking s b size) { world = w; sends = rs })
              wev
              b
              size
              n).1 in
          WroteOnce s v b size n × (v.sends ≡ rs))
  advance-WroteOnce s wev b size n w rs whole word le = elim (Bool-cases (n == size)) [
    | inl e ↦
        let t = record (asking s b size) { world = w; sends = rs } in
        let (buffers, asked, sends) = watch-buffers t wev in
        rw e (
          record {
            asked = asked;
            last = ap (λ f. (f b).last) buffers;
            pos = rw e (ap (λ f. (f b).pos) buffers);
            inside = rw buffers (omega arith);
          },
          sends,
        )
    | inr e ↦
        let sum : u64 ((s.buffers b).pos + n) ≡ (s.buffers b).pos + n = omega arith in
        rw e (
          record {
            asked = refl;
            last = ground arith;
            pos = rw e (ground (arith, sum));
            inside = ground (arith, sum);
          },
          refl,
        )
  ]

  -- The event belongs to the writing half of the connection, or is not ready.
  abbrev pub Quiet : World → Ptr → Ptr → Type 0
  Quiet w wev c = (wev ≡ (w.connections c).write) ⊎ ((w.events wev).ready ≡ false)

  after_send :
      (w v : World) (wev c : Ptr) (size : ℕ) (r : Return)
      → Sent w v c size r
      → is_error r ≡ false
      → Quiet w wev c
      → (w.events wev).timer_set ≡ false
      → ((v.events wev).timer_set ≡ false)
        × (((v.events wev).ready && ltb (byte_count r) size) ≡ false)
  after_send w v wev c size r s fine (inl e) off =
      let unready = s.unready in (rw e (s.timer ∙ (rw e at off)), rw e (ground arith))
  after_send w v wev c size r s fine (inr unready) off =
      elim (Bool-cases (wev == (w.connections c).write)) [
        | inl e ↦
            let e' = ==→eq wev (w.connections c).write e in
            let quiet = s.unready in (rw e' (s.timer ∙ (rw e' at off)), rw e' (ground arith))
        | inr n ↦ let same = s.others wev n in (rw same off, rw same (ground arith))
      ]

  -- What a round leaves: it is the last one, or the event is not ready.
  abbrev Round : Server K → Ptr → Ptr → ℕ → Return → List Return → Option (Bool × Server K) → Type 0
  Round s wev b size r rs o =
      (flag : Bool) × (v : Server K) × (o ≡ some (flag, v))
      × WroteOnce s v b size (byte_count r)
      × (v.sends ≡ rs)
      × ((flag && (v.world.events wev).ready) ≡ false)

  stopped_timer :
      (fuel : ℕ) (w : World) (ev : Ptr)
      → (w.events ev).timer_set ≡ false
      → stop_timer fuel w ev ≡ some w
  stopped_timer fuel w ev off = rw off refl

  advance-world :
      (s : Server K) (wev b : Ptr) (size n : ℕ)
      → (n == size) ≡ false
      → (advance epoll_ctl s wev b size n).1.world ≡ s.world
  advance-world s wev b size n e = rw e refl

  advance-flag :
      (s : Server K) (wev b : Ptr) (size n : ℕ)
      → (advance epoll_ctl s wev b size n).0 ≡ not (n == size)
  advance-flag s wev b size n = elim (Bool-cases (n == size)) [
    | inl e ↦ rw e refl
    | inr e ↦ rw e refl
  ]

  last_or_quiet :
      (t : Server K) (wev b : Ptr) (size n : ℕ)
      → n ≤ size
      → ((t.world.events wev).ready && ltb n size) ≡ false
      → ((advance epoll_ctl t wev b size n).0
          && ((advance epoll_ctl t wev b size n).1.world.events wev).ready)
        ≡ false
  last_or_quiet t wev b size n le quiet = elim (Bool-cases (n == size)) [
    | inl e ↦
        ap (λ z. z && ((advance epoll_ctl t wev b size n).1.world.events wev).ready)
          (advance-flag t wev b size n ∙ ap not e)
    | inr e ↦
        let same = ap (λ (v : World). (v.events wev).ready) (advance-world t wev b size n e) in
        let unready : (t.world.events wev).ready ≡ false = ground arith in
        stays (advance epoll_ctl t wev b size n).0 _ (same ∙ unready)
  ]
    where
      stays : (a c : Bool) → c ≡ false → (a && c) ≡ false
      stays a c f = ground arith

  wrote-Round :
      (fuel : ℕ) (s : Server K) (wev c b : Ptr) (size : ℕ) (w : World) (r : Return)
      (rs : List Return)
      → (s.buffers b).pos + size ≡ (s.buffers b).last
      → (s.buffers b).last < 2 ^ 64
      → 0 < size
      → ends r ≡ true
      → is_error r ≡ false
      → byte_count r ≤ size
      → (w.events wev).timer_set ≡ false
      → ((w.events wev).ready && ltb (byte_count r) size) ≡ false
      → Round s wev b size r rs
          (wrote epoll_ctl fuel (asking s b size) wev c b size (some (as_io r, w, rs)))
  unfolding wrote
  wrote-Round fuel s wev c b size w eintr rs whole word some_bytes e fine le off quiet =
      absurd (ground arith)
  wrote-Round fuel s wev c b size w other_error rs whole word some_bytes e fine le off quiet =
      absurd (ground arith)
  wrote-Round fuel s wev c b size w eagain rs whole word some_bytes e fine le off quiet =
      let n : (0 == size) ≡ false = ground arith in
      (
        false,
        record (asking s b size) { world = w; sends = rs },
        refl,
        record { asked = refl; last = refl; pos = rw n (omega arith); inside = omega arith },
        refl,
        refl,
      )
  wrote-Round fuel s wev c b size w (bytes n) rs whole word some_bytes e fine le off quiet =
      elim (Bool-cases (n == 0)) [
        | inl z ↦
            let none_sent = ==→eq n 0 z in
            let n' : (n == size) ≡ false = ground arith in
            (
              true,
              record (asking s b size) { world = w; sends = rs },
              rw z refl,
              record { asked = refl; last = refl; pos = rw n' (omega arith); inside = omega arith },
              refl,
              ground arith,
            )
        | inr p ↦
            let t = record (asking s b size) { world = w; sends = rs } in
            let (once, sends) = advance-WroteOnce s wev b size n w rs whole word le in
            (
              (advance epoll_ctl t wev b size n).0,
              (advance epoll_ctl t wev b size n).1,
              rw p (rw (stopped_timer fuel w wev off) refl),
              once,
              sends,
              last_or_quiet t wev b size n le quiet,
            )
      ]

  write_round_lem :
      (fuel : ℕ) (s : Server K) (wev c b : Ptr) (size : ℕ) (o : Option (Io × World × List Return))
      → posix_send s.world c size s.sends ≡ o
      → write_round epoll_ctl fuel s wev c b size
        ≡ wrote epoll_ctl fuel (asking s b size) wev c b size o
  unfolding write_round
  write_round_lem fuel s wev c b size o e =
      ap (λ r. wrote epoll_ctl fuel (asking s b size) wev c b size r) e

  loop_once :
      (fuel : ℕ) (s : Server K) (wev c b : Ptr) (size n : ℕ) (rs : List Return)
      (o : Option (Bool × Server K))
      → write_round epoll_ctl fuel s wev c b size ≡ o
      → (flag : Bool) × (v : Server K) × (o ≡ some (flag, v))
        × WroteOnce s v b size n
        × (v.sends ≡ rs)
        × ((flag && (v.world.events wev).ready) ≡ false)
      → (v : Server K) × (write_loop epoll_ctl (suc fuel) s wev c b size ≡ some v)
        × WroteOnce s v b size n
        × (v.sends ≡ rs)
  unfolding write_loop
  loop_once fuel s wev c b size n rs o e (false, v, f, once, sends, stop) =
      (v, rw (e ∙ f, write_loop) refl, once, sends)
  loop_once fuel s wev c b size n rs o e (true, v, f, once, sends, stop) =
      (v, rw (e ∙ f, write_loop) (rw stop refl), once, sends)

-- For an event that is not timed out, of a connection that is not to be closed, with a buffer that is not
-- empty, no timer, and an event that belongs to the writing half or is not ready: `mywrite` asks `send`,
-- after its interruptions, once for all bytes left in the buffer, and ends with its answer, if that is no
-- error. After a part is sent the buffer stands behind it; after all is sent it stands where it stood.
pub mywrite-WroteOnce :
    {K : Type 0} (epoll_ctl : K → CtlOp → Option ℕ → Interest → Option K) (fuel k : ℕ)
    (s : Server K) (wev c b : Ptr) (size : ℕ) (r : Return) (rs : List Return)
    → (s.world.events wev).data_ptr ≡ c
    → (s.world.connections c).buffer ≡ b
    → (s.world.events wev).timedout ≡ false
    → (s.world.connections c).close ≡ false
    → (b == null) ≡ false
    → (s.buffers b).pos + size ≡ (s.buffers b).last
    → (s.buffers b).last < 2 ^ 64
    → 0 < size
    → (s.world.events wev).timer_set ≡ false
    → Quiet epoll_ctl s.world wev c
    → s.sends ≡ interrupted k ++ r ∷ rs
    → ends r ≡ true
    → is_error r ≡ false
    → byte_count r ≤ size
    → (v : Server K) × (mywrite epoll_ctl (suc fuel) s wev ≡ some v)
      × WroteOnce epoll_ctl s v b size (byte_count r)
      × (v.sends ≡ rs)
unfolding mywrite
mywrite-WroteOnce epoll_ctl fuel k s wev c b size r rs at_c at_b on_time stays present whole word
      some_bytes off quiet answers e fine le =
    let (w, sent, s1) = posix_send-Sent k s.world c size r rs e in
    let (off', quiet') = after_send epoll_ctl s.world w wev c size r s1 fine quiet off in
    let round : write_round epoll_ctl fuel s wev c b size
        ≡ wrote epoll_ctl fuel (asking epoll_ctl s b size) wev c b size (some (as_io r, w, rs)) =
      write_round_lem epoll_ctl fuel s wev c b size (some (as_io r, w, rs)) (rw answers sent) in
    let after =
      wrote-Round epoll_ctl fuel s wev c b size w r rs whole word some_bytes e fine le off'
        quiet' in
    let (v, looped, once, sends) =
      loop_once epoll_ctl fuel s wev c b size (byte_count r) rs _ round after in
    let left : sub64 (s.buffers b).last (s.buffers b).pos ≡ size = omega arith in
    let more : (size == 0) ≡ false = ground arith in
    (v, rw (at_c, at_b, on_time, stays, present, left, more) looped, once, sends)
