-- ===== src/Accept/Tests.antt =====
-- A worker with the id 7 and the listening connection 12, at a free mutex.
use libcn.Prelude.{false}
use libcn.Epoll.Kernel.{Kernel, unwatched, opened}
use package.libcn.Accept.{Listening, Accepting}

abbrev socket : Listening
socket = record { connection = 12; reuseport = false }

abbrev worker : Accepting Kernel
worker = record {
  kernel = unwatched;
  world = opened;
  word = 0;
  accept_mutex_held = false;
  accept_events = false;
}
