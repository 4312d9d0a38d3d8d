-- ===== src/EventLoop/Tests.antt =====
-- A round of a worker with the id 7 at a free mutex, in which no event comes.
use libcn.Prelude.{ℕ, false, true, some, pos, [], Ptr, Option}
use libcn.Queue.{queue_init}
use libcn.World.{World}
use libcn.Timer.{timer_infinite}
use libcn.Epoll.Kernel.{Kernel, epoll_ctl, unwatched, opened}
use libcn.Accept.{Listening, Accepting}
use package.libcn.EventLoop.{Worker, Waited, admit}

abbrev socket : Listening
socket = record { connection = 12; reuseport = false }

abbrev quiet : World
quiet = record opened { posted_links = queue_init (queue_init opened.posted_links 600) 700 }

abbrev worker : Worker Kernel
worker = record {
  accepting = record {
    kernel = unwatched;
    world = quiet;
    word = 0;
    accept_mutex_held = false;
    accept_events = false;
  };
  use_accept_mutex = true;
  accept_disabled = pos 0;
}

abbrev idle : Ptr → World → Option World
idle ev w = some w

abbrev wait : ℕ → Waited
wait timer = record { ready = []; now = 0; alarm = false }

abbrev listening : World
listening = (admit epoll_ctl worker socket 7 timer_infinite).worker.accepting.world
