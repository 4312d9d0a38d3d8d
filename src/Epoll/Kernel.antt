-- ===== src/Epoll/Kernel.antt =====
-- A kernel for tests: the interest list is a function of the descriptor, and nothing fails.
use libcn.Prelude.{ℕ, true, false, Option, none, some, ◌≡◌, ◌⊎◌, inl, inr, write, arith}
use libcn.World.{zero_event, World}
use libcn.Connection.Fixture.{world}
use package.libcn.Epoll.Control.{CtlOp, Interest}

abbrev pub Kernel : Type 0
Kernel = ℕ → Option Interest

abbrev pub epoll_ctl : Kernel → CtlOp → Option ℕ → Interest → Option Kernel
epoll_ctl k op none i = none
epoll_ctl k CtlOp.ctl_add (some s) i = some (write k s (some i))
epoll_ctl k CtlOp.ctl_mod (some s) i = some (write k s (some i))
epoll_ctl k CtlOp.ctl_del (some s) i = some (write k s none)

abbrev pub watched : Kernel → ℕ → Option Interest
watched k s = k s

pub ctl_sets :
    (k k' : Kernel) (s : ℕ) (i : Interest)
    → (epoll_ctl k CtlOp.ctl_add (some s) i ≡ some k')
      ⊎ (epoll_ctl k CtlOp.ctl_mod (some s) i ≡ some k')
    → watched k' s ≡ some i
ctl_sets k k' s i (inl e) = ground arith
ctl_sets k k' s i (inr e) = ground arith

pub ctl_forgets :
    (k k' : Kernel) (s : ℕ) (i : Interest)
    → epoll_ctl k CtlOp.ctl_del (some s) i ≡ some k'
    → watched k' s ≡ none
ctl_forgets k k' s i e = ground arith

abbrev pub unwatched : Kernel
unwatched s = none

-- The fixture's state in which all events belong to the connection at 12.
abbrev pub opened : World
opened = record world { events = λ e. record zero_event { data_ptr = 12 } }

abbrev pub reading : Interest
reading = record {
  readable = true;
  writable = false;
  edge = true;
  connection = 12;
  instance_bit = false;
}
