-- ===== src/Acceptor/Tests.antt =====
-- A worker with two free connections where no memory is left.
use libcn.Prelude.{refl, false, true, some, pos, ◌≡◌, [], ◌∷◌, Ptr, Option, arith}
use libcn.World.{World}
use libcn.Connection.Fixture.{world, world-IsFree}
use libcn.Epoll.Kernel.{Kernel, unwatched}
use package.libcn.Acceptor.{Acceptor, Source, accept_one}
use package.libcn.Acceptor.Undone.{Undone, accept_one-Undone}

abbrev acceptor : Acceptor Kernel
acceptor = record {
  worker = record {
    accepting = record {
      kernel = unwatched;
      world = world;
      word = 7;
      accept_mutex_held = true;
      accept_events = false;
    };
    use_accept_mutex = true;
    accept_disabled = pos 0;
  };
  libc = record { answers = []; freed = []; bytes = λ a. 0 };
  stat_accepted = 4;
  stat_active = 1;
  stat_handled = 4;
  connection_counter = 5;
}

abbrev source : Source
source = record {
  at = 4152;
  socket = record { connection = 12; reuseport = false };
  pool_size = 256;
}

abbrev idle : Ptr → World → Option World
idle ev w = some w

accept_one-Undone_example :
    (v : Acceptor Kernel) × (accept_one idle idle acceptor source 512 6 true ≡ some (false, v))
    × Undone acceptor v 10 6 (10 ∷ 11 ∷ [])
unfolding libcn.Pool.create_pool
accept_one-Undone_example =
    accept_one-Undone idle idle acceptor source 512 6 10 (11 ∷ []) true world-IsFree refl refl
      (omega arith) refl
