-- ===== src/Start/Tests.antt =====
-- A worker with two connections.
use libcn.Prelude.{refl, false, true, some, pos, ◌≡◌, [], ◌∷◌, Ptr, Option, arith}
use libcn.Alloc.{Libc}
use libcn.World.{World}
use libcn.Epoll.Kernel.{Kernel, epoll_ctl, unwatched, opened}
use libcn.Accept.{Listening}
use libcn.EventLoop.{Worker}
use package.libcn.Start.{ListenSocket, System, event_process_init}
use package.libcn.Start.Tables.{behind}
use package.libcn.Start.Result.{Ready, event_process_init-Ready}

abbrev libc : Libc
libc = record { answers = some 10000 ∷ some 20000 ∷ some 30000 ∷ []; freed = []; bytes = λ a. 7 }

abbrev os : System
os = record { epoll_init = true; sigaction = true }

abbrev socket : ListenSocket
socket = record { at = 4152; fd = 5; deferred_accept = true; reuseport = false }

abbrev worker : Worker Kernel
worker = record {
  accepting = record {
    kernel = unwatched;
    world = opened;
    word = 0;
    accept_mutex_held = true;
    accept_events = false;
  };
  use_accept_mutex = false;
  accept_disabled = pos 0;
}

abbrev idle : Ptr → World → Option World
idle ev w = some w

event_process_init-Ready_example :
    (v : Worker Kernel) × (s : Listening) × (event_process_init epoll_ctl idle os true worker socket
        2 800 libc
      ≡ some (false, v, s))
    × Ready v socket s 10000 (behind 10000 1 [])
unfolding libcn.Start.alloc_tables
event_process_init-Ready_example =
    event_process_init-Ready epoll_ctl idle os true worker socket 1 800 libc
      (record libc { answers = [] }) 10000 20000 30000 refl refl refl refl refl (omega arith)
      (omega arith) refl
