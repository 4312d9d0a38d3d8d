-- ===== src/Connection/Fixture.antt =====
-- A state for tests: two free connections, at 10 and 11, and one with the descriptor 5, at 12, which
-- is reusable.
use libcn.Prelude.{refl, Ptr, true, false, none, some, [], ◌∷◌, arith, ◌==◌, if◌then◌else◌}
use libcn.Queue.{Links, queue_init, queue_insert_head}
use libcn.Queue.Edit.{queue_init-Ring, insert_head-Ring}
use libcn.Rbtree.{Rbtree}
use libcn.World.{zero_event, Connection, zero_connection, World}
use package.libcn.Connection.Free.{IsFree}
use package.libcn.Connection.Reusable.{IsReusable}

abbrev pub table : Ptr → Connection
table c =
    if c == 10
    then record zero_connection { data_ptr = 11; read = 110; write = 210 }
    else if c == 11
    then record zero_connection { read = 111; write = 211 }
    else if c == 12
    then record zero_connection { read = 112; write = 212; fd = some 5; reusable = true }
    else zero_connection

abbrev pub nowhere : Links
nowhere = record { prev = λ a. 0; next = λ a. 0 }

abbrev pub no_timers : Rbtree
no_timers = record {
  key = λ a. 0;
  left = λ a. 0;
  right = λ a. 0;
  parent = λ a. 0;
  red = λ a. false;
  root = 800;
  sentinel = 800;
}

abbrev pub world : World
world = record {
  events = λ e. zero_event;
  connections = table;
  files = none;
  files_n = 0;
  free_connections = 10;
  free_connection_n = 2;
  reusable_queue = 500;
  reusable_links = queue_insert_head (queue_init nowhere 500) 500 12;
  reusable_connections_n = 1;
  posted_links = nowhere;
  posted_accept_events = 600;
  posted_events = 700;
  timers = no_timers;
  current_msec = 0;
  closed_fds = [];
}

pub world-IsFree : IsFree world (10 ∷ 11 ∷ [])
world-IsFree = record {
  chain = (refl, λ e. ground arith, (refl, λ e. ground arith, refl));
  distinct = (refl, (refl, tt));
  count = refl;
  few = omega arith;
}

pub world-IsReusable : IsReusable world (12 ∷ [])
world-IsReusable = record {
  ring = insert_head-Ring (queue_init nowhere 500) 500 12 [] (queue_init-Ring nowhere 500) refl;
  flag = λ d. ground arith;
  count = refl;
  few = omega arith;
}
