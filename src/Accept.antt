-- ===== src/Accept.antt =====
-- The accept mutex of event_accept.c: the worker that holds it listens for new connections.
pub mod Held
mod Tests
use libcn.Prelude.{
  ℕ, Ptr, null, Bool, true, false, Option, none, some, not, ◌&&◌, ◌||◌, ◌==◌, if◌then◌else◌,
}
use libcn.World.{Event, Connection, World}
use libcn.Mutex.{shmtx_trylock, shmtx_force_unlock}
use libcn.Epoll.Control.{CtlOp, Interest, epoll_add_event, epoll_del_event}

-- The fields of `listening_t` that are read here.
pub record Listening : Type 0 where
  pub connection : Ptr
  pub reuseport : Bool

-- `accept_mutex_held` and `accept_events` of one worker, the word of the mutex that all workers share,
-- the interest list of the worker's epoll, and its events.
pub record Accepting (K : Type 0) : Type 0 where
  pub kernel : K
  pub world : World
  pub word : ℕ
  pub accept_mutex_held : Bool
  pub accept_events : Bool

module _ {K : Type 0} (epoll_ctl : K → CtlOp → Option ℕ → Interest → Option K) where
  -- `none` is the return of -1.
  unfoldable pub enable_accept_events : K → World → Listening → Option (K × World)
  enable_accept_events k w ls =
      let rev = (w.connections ls.connection).read in
      let added = epoll_add_event epoll_ctl k w rev true false in
      if ls.connection == null || (w.events rev).active then some (k, w) else added

  unfoldable pub disable_accept_events : K → World → Listening → Bool → Option (K × World)
  disable_accept_events k w ls all =
      let rev = (w.connections ls.connection).read in
      let removed = epoll_del_event epoll_ctl k w rev true false in
      if ls.connection == null || not (w.events rev).active
      then some (k, w)
      else if ls.reuseport && not all
      then some (k, w)
      else removed

  -- The rest of `trylock_accept_mutex`, for a `shmtx_trylock` that was won or lost. The Boolean is
  -- whether the return is 0.
  unfoldable pub after_trylock : Accepting K → Listening → ℕ → Bool → Bool × Accepting K
  after_trylock s ls pid true =
      let enabled : Bool × Accepting K = elim (enable_accept_events s.kernel s.world ls) [
        | none ↦ (false, record s { word = (shmtx_force_unlock s.word pid).1 })
        | some (k, w) ↦ (
          true,
          record s { kernel = k; world = w; accept_mutex_held = true; accept_events = false },
        )
      ] in
      if s.accept_mutex_held && not s.accept_events then (true, s) else enabled
  after_trylock s ls pid false =
      let disabled : Bool × Accepting K = elim (disable_accept_events s.kernel s.world ls false) [
        | none ↦ (false, s)
        | some (k, w) ↦ (true, record s { kernel = k; world = w; accept_mutex_held = false })
      ] in
      if s.accept_mutex_held then disabled else (true, s)

  unfoldable pub trylock_accept_mutex : Accepting K → Listening → ℕ → Bool × Accepting K
  trylock_accept_mutex s ls pid =
      let (won, word) = shmtx_trylock s.word pid in
      after_trylock (record s { word = word }) ls pid won
