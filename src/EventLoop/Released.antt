-- ===== src/EventLoop/Released.antt =====
-- The accept mutex over a round of `process_events_and_timers`.
use libcn.Prelude.{ℕ, ◌≡◌, ◌≢◌, Bool, true, false, Option}
use libcn.World.{World}
use libcn.Epoll.Control.{CtlOp, Interest}
use libcn.Accept.{Accepting}
use package.libcn.EventLoop.{Admission}

module _ {K : Type 0} (epoll_ctl : K → CtlOp → Option ℕ → Interest → Option K) where
  -- A worker that owns the mutex knows it.
  abbrev Owns : ℕ → Accepting K → Type 0
  Owns pid a = a.word ≡ pid → a.accept_mutex_held ≡ true

  -- What an admission leaves: the same, and a round that does not go on owns no mutex.
  abbrev Admitted : ℕ → Admission K → Type 0
  Admitted pid m = Owns pid m.worker.accepting × (m.goes_on ≡ false → m.worker.accepting.word ≢ pid)
