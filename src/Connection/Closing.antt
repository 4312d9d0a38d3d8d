-- ===== src/Connection/Closing.antt =====
-- The closing of a connection.
use libcn.Prelude.{
  ℕ, ◌+◌, ◌^◌, ◌<◌, ◌≡◌, ◌≢◌, refl, Ptr, null, false, none, some, List, ◌∷◌, arith, length, has,
  ◌==◌, ap, ◌∙◌, inl, inr,
}
use libcn.World.{Event, Connection, World}
use package.libcn.Connection.{
  free_connection, reusable_connection, withdraw, close_rest, close_connection,
}
use package.libcn.Connection.Free.{Fits, IsFree, IsFree-frame, free_connection-IsFree}
use package.libcn.Connection.Reusable.{
  IsReusable, IsReusable-frame, reusable_connection-IsReusable, delete,
}
use package.libcn.Connection.Withdraw.{IsShut, withdraw-Kept, withdraw-IsShut, withdraw-instance}
use package.libcn.Connection.Steps.{reusable_connection-Same, free_connection-Same, close_fd-Shut}

-- What a connection and its place in the cycle are once it is closed.
pub record Closed (w v : World) (c : Ptr) (s : ℕ) (cs rs : List Ptr) : Type 0 where
  pub free : IsFree v (c ∷ cs)
  pub reusable : IsReusable v (delete c rs)
  pub fd : (v.connections c).fd ≡ none
  pub fds : v.closed_fds ≡ s ∷ w.closed_fds
  pub read : IsShut (v.events (w.connections c).read)
  pub write : IsShut (v.events (w.connections c).write)
  pub same_read : (v.connections c).read ≡ (w.connections c).read
  pub same_write : (v.connections c).write ≡ (w.connections c).write
  pub fits : (n : ℕ) → Fits w n → Fits v n
  pub same_instance : (d : Ptr) → (v.events d).instance_bit ≡ (w.events d).instance_bit

close_rest-Closed :
    (w : World) (c : Ptr) (s : ℕ) (cs rs : List Ptr)
    → (w.connections c).fd ≡ some s
    → IsFree w cs
    → IsReusable w rs
    → c ≢ null
    → (c == w.reusable_queue) ≡ false
    → has c cs ≡ false
    → length cs + 1 < 2 ^ 32
    → length rs + 1 < 2 ^ 32
    → Closed w (close_rest w c) c s cs rs
unfolding close_rest
close_rest-Closed w c s cs rs e f r n o out few_free few =
    let w1 = withdraw w c in
    let w2 = reusable_connection w1 c false in
    let w3 = free_connection w2 c in
    let k = withdraw-Kept w c in
    let read = withdraw-IsShut w c (w.connections c).read (inl (ground arith)) in
    let write = withdraw-IsShut w c (w.connections c).write (inr (ground arith)) in
    let (a, a_head, a_n, a_data) = reusable_connection-Same w1 c false in
    let (b, b_links, b_queue, b_n, b_flag) = free_connection-Same w2 c in
    let r1 =
      IsReusable-frame w w1 rs r k.links k.queue k.count
        (λ d. ap (λ (m : Ptr → Connection). (m d).reusable) k.connections) in
    let f1 =
      IsFree-frame w w1 cs f k.head k.free_n
        (λ d. ap (λ (m : Ptr → Connection). (m d).data_ptr) k.connections) in
    let r2 = (reusable_connection-IsReusable w1 c rs r1 (rw k.queue o) few).1 in
    let f2 = IsFree-frame w1 w2 cs f1 a_head a_n a_data in
    let f3 = free_connection-IsFree w2 c cs f2 n out few_free in
    let r3 = IsReusable-frame w2 w3 (delete c rs) r2 b_links b_queue b_n b_flag in
    let fd3 = b.fd ∙ a.fd ∙ ap (λ (m : Ptr → Connection). (m c).fd) k.connections ∙ e in
    let z = close_fd-Shut w3 c s fd3 in
    record {
      free = IsFree-frame w3 _ (c ∷ cs) f3 z.head z.free_n z.same;
      reusable = IsReusable-frame w3 _ (delete c rs) r3 z.links z.queue z.count z.flag;
      fd = z.fd;
      fds = z.fds ∙ ap (λ xs. s ∷ xs) (b.fds ∙ a.fds ∙ k.fds);
      read = rw z.events (rw b.events (rw a.events read));
      write = rw z.events (rw b.events (rw a.events write));
      same_read =
          z.read ∙ b.read ∙ a.read ∙ ap (λ (m : Ptr → Connection). (m c).read) k.connections;
      same_write =
          z.write ∙ b.write ∙ a.write ∙ ap (λ (m : Ptr → Connection). (m c).write) k.connections;
      fits = λ n h.
          rw (z.has_files ∙ b.has_files ∙ a.has_files ∙ k.has_files)
            (rw (z.files_n ∙ b.files_n ∙ a.files_n ∙ k.files_n) h);
      same_instance = λ d.
          ap (λ (m : Ptr → Event). (m d).instance_bit) (z.events ∙ b.events ∙ a.events)
          ∙ withdraw-instance w c d;
    }

close_connection-open :
    (fuel : ℕ) (w : World) (c : Ptr) (s : ℕ)
    → (w.connections c).fd ≡ some s
    → (w.events (w.connections c).read).timer_set ≡ false
    → (w.events (w.connections c).write).timer_set ≡ false
    → close_connection fuel w c ≡ some (close_rest w c)
unfolding close_connection
close_connection-open fuel w c s e rt wt = rw (e, close_connection) (rw rt (rw wt refl))

close_connection-again :
    (fuel : ℕ) (w : World) (c : Ptr)
    → (w.connections c).fd ≡ none
    → close_connection fuel w c ≡ some w
unfolding close_connection
close_connection-again fuel w c e = rw (e, close_connection) refl

-- In a state with a sound free list and a sound reusable queue, closing an open connection that is
-- not free and whose events have no timer always ends: its descriptor is given to
-- `close` once and forgotten, it is the first free connection and no longer reusable, its events are
-- closed and not posted, and closing it again changes nothing.
pub close_connection-Closed :
    (fuel : ℕ) (w : World) (c : Ptr) (s : ℕ) (cs rs : List Ptr)
    → (w.connections c).fd ≡ some s
    → (w.events (w.connections c).read).timer_set ≡ false
    → (w.events (w.connections c).write).timer_set ≡ false
    → IsFree w cs
    → IsReusable w rs
    → c ≢ null
    → (c == w.reusable_queue) ≡ false
    → has c cs ≡ false
    → length cs + 1 < 2 ^ 32
    → length rs + 1 < 2 ^ 32
    → (v : World) × (close_connection fuel w c ≡ some v)
      × Closed w v c s cs rs
      × (close_connection fuel v c ≡ some v)
close_connection-Closed fuel w c s cs rs e rt wt f r n o out few_free few =
    let z = close_rest-Closed w c s cs rs e f r n o out few_free few in
    (
      close_rest w c,
      close_connection-open fuel w c s e rt wt,
      z,
      close_connection-again fuel _ c z.fd,
    )
