-- ===== src/Socket/Tests.antt =====
-- The connection at 12 of the fixture, with the events 112 and 212.
use libcn.Prelude.{◌≡◌, refl, true, some, [], ◌∷◌, ◌++◌}
use libcn.World.{World, zero_event}
use libcn.Connection.Fixture.{world}
use package.libcn.Socket.{bytes, done, posix_send, posix_recv}
use package.libcn.Socket.Answered.{
  interrupted, Sent, Received, posix_send-Sent, posix_recv-Received,
}

abbrev ready : World
ready = record world { events = λ ev. record zero_event { ready = true; available = true } }

posix_send-Sent_example :
    (v : World) × (posix_send ready 12 100 (interrupted 2 ++ bytes 40 ∷ []) ≡ some (done 40, v, []))
    × Sent ready v 12 100 (bytes 40)
posix_send-Sent_example = posix_send-Sent 2 ready 12 100 (bytes 40) [] refl

posix_recv-Received_example :
    (v : World) × (posix_recv true ready 12 100 (interrupted 2 ++ bytes 40 ∷ [])
      ≡ some (done 40, v, []))
    × Received true ready v 112 100 (bytes 40)
posix_recv-Received_example = posix_recv-Received 2 true ready 12 100 (bytes 40) [] refl refl
