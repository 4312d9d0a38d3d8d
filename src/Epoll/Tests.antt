-- ===== src/Epoll/Tests.antt =====
-- An event of the connection at 12, with its instance bit, across a close and a new `get_connection`.
use libcn.Prelude.{none, not, write, ◌≡◌, refl, Ptr, true, false, Option, some, [], ◌∷◌, arith}
use libcn.World.{World}
use libcn.Connection.{get_connection, close_connection}
use libcn.Connection.Fixture.{world, world-IsFree, world-IsReusable}
use package.libcn.Epoll.{EpollEvent, process_event}
use package.libcn.Epoll.Control.{set_active, epoll_add_event, epoll_del_event}
use package.libcn.Epoll.Interest.{HasEvents, Agrees, event_of, epoll_add_event-Agrees}
use package.libcn.Epoll.Kernel.{
  epoll_ctl, watched, ctl_sets, ctl_forgets, unwatched, opened, reading,
}
use package.libcn.Epoll.Stale.{process_event-close_connection}

abbrev idle : Ptr → World → Option World
idle ev w = some w

abbrev readable : EpollEvent
readable = record {
  connection = 12;
  instance_bit = false;
  pollin = true;
  pollout = false;
  err = false;
  hup = false;
  rdhup = true;
}

process_event-close_connection_example :
    (v : World) × (close_connection 0 world 12 ≡ some v)
    × (process_event idle false v readable ≡ some v)
    × (u : World) × (get_connection idle v 9 ≡ some (12, u))
    × (process_event idle false u readable ≡ some u)
process_event-close_connection_example =
    process_event-close_connection idle false 0 world readable 5 9 (10 ∷ 11 ∷ []) (12 ∷ []) refl
      refl refl refl refl refl world-IsFree world-IsReusable (λ e. ground arith) refl refl
      (omega arith) (omega arith)

opened-HasEvents : HasEvents opened 12
opened-HasEvents = record { read = refl; write = refl; apart = refl; same = refl }

abbrev listening : World
listening = set_active opened 112 true

listening-HasEvents : HasEvents listening 12
listening-HasEvents = record { read = refl; write = refl; apart = refl; same = refl }

added :
    epoll_add_event epoll_ctl unwatched opened (event_of opened 12 true) true true
    ≡ some (write unwatched 5 (some reading), listening)
unfolding epoll_add_event
added = refl

epoll_add_event-Agrees_example :
    Agrees (watched (write unwatched 5 (some reading)) 5) listening 12
    × ((listening.events (event_of opened 12 true)).active ≡ true)
    × ((listening.events (event_of opened 12 (not true))).active
        ≡ (opened.events (event_of opened 12 (not true))).active)
epoll_add_event-Agrees_example =
    epoll_add_event-Agrees epoll_ctl watched ctl_sets ctl_forgets unwatched
      (write unwatched 5 (some reading)) opened listening 12 5 true true opened-HasEvents refl added

abbrev silent : World
silent = set_active listening 112 false

removed :
    epoll_del_event epoll_ctl
      (write unwatched 5 (some reading))
      listening
      (event_of listening 12 true)
      true
      false
    ≡ some (write (write unwatched 5 (some reading)) 5 none, silent)
unfolding epoll_del_event
removed = refl
