-- ===== src/Accept/Held.antt =====
-- A worker listens exactly while it holds the accept mutex.
use mathlib.Core.Option
use libcn.Prelude.{ℕ, Bool, true, false, Option, none, some, ◌≡◌, ◌≢◌, ◌⊎◌}
use libcn.World.{World}
use libcn.Epoll.Control.{CtlOp, Interest}
use package.libcn.Accept.{Listening, Accepting}

-- The event of the listening socket.
abbrev pub listens : World → Listening → Bool
listens w ls = (w.events (w.connections ls.connection).read).active

-- What a request of epoll leaves: nothing on an error, or the listening event with this bit.
abbrev Left {ℓ} : {K : Type ℓ} → Listening → Bool → Option (K × World) → Type 0
Left ls b none = Unit
Left ls b (some (k, w)) = listens w ls ≡ b

module _ {K : Type 0} (epoll_ctl : K → CtlOp → Option ℕ → Interest → Option K) where
  -- A worker outside of `trylock_accept_mutex`: it listens just when it held the mutex last.
  pub record IsAccepting (s : Accepting K) (ls : Listening) : Type 0 where
    pub listening : listens s.world ls ≡ s.accept_mutex_held

  -- The answer of `trylock_accept_mutex`: a worker that is told of success holds the mutex and listens,
  -- or another worker holds the mutex and it does not; on an error the word is as before.
  abbrev pub Decided : Accepting K → ℕ → Bool × Accepting K → Type 0
  Decided s pid (true, t) =
      ((s.word ≡ 0) × (t.word ≡ pid) × (t.accept_mutex_held ≡ true))
      ⊎ ((s.word ≢ 0) × (t.word ≡ s.word) × (t.accept_mutex_held ≡ false))
  Decided s pid (false, t) = t.word ≡ s.word
