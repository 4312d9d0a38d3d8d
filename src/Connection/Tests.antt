-- ===== src/Connection/Tests.antt =====
-- The operations on connections, in the state of Connection/Fixture.
use libcn.Prelude.{◌≡◌, refl, Ptr, true, false, Option, some, [], ◌∷◌, arith, ◌==◌}
use libcn.Queue.{queue_init, queue_empty}
use libcn.World.{World}
use package.libcn.Connection.{
  free_connection, reusable_connection, take_connection, get_connection, close_connection,
}
use package.libcn.Connection.Free.{IsFree, Taken, get_connection-Taken, Fits, get-free_connection}
use package.libcn.Connection.Reusable.{IsReusable, delete, reusable_connection-IsReusable}
use package.libcn.Connection.Closing.{Closed, close_connection-Closed}
use package.libcn.Connection.Fixture.{nowhere, world, world-IsFree, world-IsReusable}

-- A handler that does nothing.
abbrev idle : Ptr → World → Option World
idle ev w = some w

get_connection-Taken_example :
    (get_connection idle world 7 ≡ some (10, take_connection world 7))
    × Taken world (take_connection world 7) 10 7
    × IsFree (take_connection world 7) (11 ∷ [])
get_connection-Taken_example = get_connection-Taken idle world 10 (11 ∷ []) 7 world-IsFree refl refl

abbrev full : World
full = record world {
  free_connections = 0;
  free_connection_n = 0;
  reusable_links = queue_init nowhere 500;
  reusable_connections_n = 0;
}

full-drained : queue_empty full.reusable_links full.reusable_queue ≡ true
unfolding queue_empty queue_init
full-drained = refl

freed-Fits : Fits (free_connection world 12) 7
unfolding free_connection
freed-Fits = refl

freed_events :
    (((free_connection world 12).connections 12).read
      == ((free_connection world 12).connections 12).write)
    ≡ false
unfolding free_connection
freed_events = refl

get-free_connection_example :
    (v : World) × (get_connection idle (free_connection world 12) 7 ≡ some (12, v))
    × IsFree v (10 ∷ 11 ∷ [])
    × ((v.connections 12).fd ≡ some 7)
get-free_connection_example =
    get-free_connection idle world 12 (10 ∷ 11 ∷ []) 7 world-IsFree (λ e. ground arith) refl
      (omega arith) freed-Fits freed_events

reusable_connection-IsReusable_example :
    IsReusable (reusable_connection world 12 true) (12 ∷ delete 12 (12 ∷ []))
    × IsReusable (reusable_connection world 12 false) (delete 12 (12 ∷ []))
reusable_connection-IsReusable_example =
    reusable_connection-IsReusable world 12 (12 ∷ []) world-IsReusable refl (omega arith)

close_connection-Closed_example :
    (v : World) × (close_connection 0 world 12 ≡ some v)
    × Closed world v 12 5 (10 ∷ 11 ∷ []) (12 ∷ [])
    × (close_connection 0 v 12 ≡ some v)
close_connection-Closed_example =
    close_connection-Closed 0 world 12 5 (10 ∷ 11 ∷ []) (12 ∷ []) refl refl refl world-IsFree
      world-IsReusable (λ e. ground arith) refl refl (omega arith) (omega arith)
