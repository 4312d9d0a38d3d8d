-- ===== src/Acceptor/Undone.antt =====
-- A connection for which there is no pool is given back.
use libcn.Prelude.{
  ℕ, ◌+◌, ◌^◌, ◌<◌, ◌≡◌, ◌≢◌, refl, Ptr, null, Bool, true, false, Option, none, some, List, ◌∷◌,
  arith, length, has, ◌==◌, ◌∙◌, ap, u64,
}
use libcn.Alloc.{Libc}
use libcn.Pool.{Pool, create_pool, palloc}
use libcn.World.{Connection, World, set_connection}
use libcn.Connection.{free_connection, take_connection, close_fd}
use libcn.Connection.Free.{IsFree, IsFree-frame, free_connection-IsFree, Fits, get_connection-Taken}
use package.libcn.Acceptor.{
  Acceptor, Source, sizeof_sockaddr, world_of, set_world, shortage, close_accepted_connection,
  addressed, pooled, with_pool, accept_one,
}

-- The memory of a connection is not there: the pool, or the address in it. A pool that is there is
-- destroyed.
abbrev pub lacks : Option Ptr × Pool × Libc → Bool
lacks (none, p, libc) = true
lacks (some a, p, libc) = false

abbrev pub no_address : Option Pool × Libc → Bool
no_address (none, libc) = true
no_address (some p, libc) = lacks (palloc libc p sizeof_sockaddr)

abbrev pub no_pool : Libc → ℕ → Bool
no_pool libc size = no_address (create_pool libc size)

-- The descriptor is closed and the connection `c` is the first free one again.
pub record Undone {K : Type 0} (s v : Acceptor K) (c fd : ℕ) (free : List Ptr) : Type 0 where
  pub free_list : IsFree (world_of v) free
  pub no_fd : ((world_of v).connections c).fd ≡ none
  pub closed : (world_of v).closed_fds ≡ fd ∷ (world_of s).closed_fds
  pub active : v.stat_active ≡ s.stat_active
  pub accepted : v.stat_accepted ≡ u64 (s.stat_accepted + 1)

-- A state between taking the connection and giving it back.
record Held {K : Type 0} (s t : Acceptor K) (c fd : ℕ) (cs : List Ptr) : Type 0 where
  free_list : IsFree (world_of t) cs
  here : ((world_of t).connections c).fd ≡ some fd
  closed : (world_of t).closed_fds ≡ (world_of s).closed_fds
  active : t.stat_active ≡ u64 (s.stat_active + 1)
  accepted : t.stat_accepted ≡ u64 (s.stat_accepted + 1)

free_connection-rest :
    (w : World) (c : Ptr)
    → (((free_connection w c).connections c).fd ≡ (w.connections c).fd)
      × ((free_connection w c).closed_fds ≡ w.closed_fds)
unfolding free_connection
free_connection-rest w c = (ground arith, ground arith)

close_fd-IsFree :
    (w : World) (c fd : ℕ) (cs : List Ptr)
    → IsFree w cs
    → (w.connections c).fd ≡ some fd
    → IsFree (close_fd w c) cs
      × (((close_fd w c).connections c).fd ≡ none)
      × ((close_fd w c).closed_fds ≡ fd ∷ w.closed_fds)
unfolding close_fd
close_fd-IsFree w c fd cs f e =
    let v = record (set_connection w c (record (w.connections c) { fd = none })) {
      closed_fds = fd ∷ w.closed_fds;
    } in
    let same : close_fd w c ≡ v = rw (e, close_fd) refl in
    rw same (IsFree-frame w v cs f refl refl (λ d. ground arith), ground arith, refl)

close_accepted_connection-Undone :
    {K : Type 0} (s t : Acceptor K) (c fd : ℕ) (cs : List Ptr) (pool : Option Pool)
    → Held s t c fd cs
    → c ≢ null
    → has c cs ≡ false
    → length cs + 1 < 2 ^ 32
    → s.stat_active < 2 ^ 64
    → Undone s (close_accepted_connection t c pool) c fd (c ∷ cs)
unfolding close_accepted_connection
close_accepted_connection-Undone s t c fd cs pool h real out few counted =
    let w = world_of t in
    let (here, closed) = free_connection-rest w c in
    let f = free_connection-IsFree w c cs h.free_list real out few in
    let (f', no_fd, closed') =
      close_fd-IsFree (free_connection w c) c fd (c ∷ cs) f (here ∙ h.here) in
    let active = h.active in
    record {
      free_list = f';
      no_fd = no_fd;
      closed = closed' ∙ ap (λ xs. fd ∷ xs) (closed ∙ h.closed);
      active = omega arith;
      accepted = h.accepted;
    }

-- The round stops with the connection given back.
abbrev Stopped :
    {K : Type 0} → Acceptor K → (c fd : ℕ) → List Ptr → Option (Bool × Acceptor K) → Type 0
Stopped {K} s c fd free o = (v : Acceptor K) × (o ≡ some (false, v)) × Undone s v c fd free

module _ {K : Type 0} (accepted : Ptr → World → Option World) (s : Acceptor K) (ls : Source)
    (c fd : ℕ) (cs : List Ptr) (deferred : Bool) (real : c ≢ null) (out : has c cs ≡ false)
    (few : length cs + 1 < 2 ^ 32) (counted : s.stat_active < 2 ^ 64) where
  addressed-Stopped :
      (t : Acceptor K) (r : Option Ptr × Pool × Libc)
      → Held s t c fd cs
      → lacks r ≡ true
      → Stopped s c fd (c ∷ cs) (addressed accepted t ls c deferred r)
  unfolding addressed
  addressed-Stopped t (none, p, l) h e = (
    close_accepted_connection (record t { libc = l }) c (some p),
    refl,
    close_accepted_connection-Undone s (record t { libc = l }) c fd cs (some p)
        (record {
          free_list = h.free_list;
          here = h.here;
          closed = h.closed;
          active = h.active;
          accepted = h.accepted;
        })
        real out few counted,
  )
  addressed-Stopped t (some a, p, l) h e = absurd (ground arith)

  set_pool-Held :
      (t : Acceptor K) (p : Ptr)
      → Held s t c fd cs
      → Held s
          (set_world t
            (set_connection (world_of t) c (record ((world_of t).connections c) { pool = p })))
          c
          fd
          cs
  set_pool-Held t p h =
      let w = world_of t in
      let v = set_connection w c (record (w.connections c) { pool = p }) in
      record {
        free_list = IsFree-frame w v cs h.free_list refl refl (λ d. ground arith);
        here = ground (arith, h.here);
        closed = h.closed;
        active = h.active;
        accepted = h.accepted;
      }

  pooled-Stopped :
      (t : Acceptor K) (r : Option Pool × Libc)
      → Held s t c fd cs
      → no_address r ≡ true
      → Stopped s c fd (c ∷ cs) (pooled accepted t ls c deferred r)
  unfolding pooled
  pooled-Stopped t (none, l) h e = (
    close_accepted_connection (record t { libc = l }) c none,
    refl,
    close_accepted_connection-Undone s (record t { libc = l }) c fd cs none
        (record {
          free_list = h.free_list;
          here = h.here;
          closed = h.closed;
          active = h.active;
          accepted = h.accepted;
        })
        real out few counted,
  )
  pooled-Stopped t (some p, l) h e =
      addressed-Stopped _ (palloc l p sizeof_sockaddr) (set_pool-Held t p.first.base h) e

take_connection-closed : (w : World) (fd : ℕ) → (take_connection w fd).closed_fds ≡ w.closed_fds
unfolding take_connection
take_connection-closed w fd = ground arith

-- With a sound free list that is not empty, a descriptor that fits and two different events of the first
-- free connection, a round of `event_accept` for a new descriptor for whose connection there is no pool, or
-- no address in it, stops: the descriptor is closed, the connection has none and is the first free one
-- again, the free list is as before, and so is the count of active connections.
pub accept_one-Undone :
    {K : Type 0} (handle accepted : Ptr → World → Option World) (s : Acceptor K) (ls : Source)
    (n fd c : ℕ) (cs : List Ptr) (deferred : Bool)
    → IsFree (world_of s) (c ∷ cs)
    → Fits (world_of s) fd
    → (((world_of s).connections c).read == ((world_of s).connections c).write) ≡ false
    → s.stat_active < 2 ^ 64
    → no_pool s.libc ls.pool_size ≡ true
    → (v : Acceptor K) × (accept_one handle accepted s ls n fd deferred ≡ some (false, v))
      × Undone s v c fd (c ∷ cs)
unfolding accept_one with_pool
accept_one-Undone handle accepted s ls n fd c cs deferred f fits apart counted none_left =
    let w = world_of s in
    let (got, taken, rest) = get_connection-Taken handle w c cs fd f fits apart in
    let few = f.few in
    let real = f.chain.1 in
    let present : (c == null) ≡ false = ground arith in
    let t = record s {
      worker = record s.worker {
        accepting = record s.worker.accepting { world = take_connection w fd };
        accept_disabled = shortage n w.free_connection_n;
      };
      stat_accepted = u64 (s.stat_accepted + 1);
      stat_active = u64 (s.stat_active + 1);
    } in
    let held : Held s t c fd cs = record {
      free_list = rest;
      here = ap (λ (x : Connection). x.fd) taken.connection;
      closed = take_connection-closed w fd;
      active = refl;
      accepted = refl;
    } in
    let (v, done, undone) =
      pooled-Stopped accepted s ls c fd cs deferred real f.distinct.0 (omega arith) counted t
        (create_pool s.libc ls.pool_size) held none_left in
    (v, rw (got, accept_one) (rw present done), undone)
