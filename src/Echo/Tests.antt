-- ===== src/Echo/Tests.antt =====
-- The connection at 12 of the fixture with three bytes in its buffer, of which `send` takes two after an
-- interruption.
use libcn.Prelude.{refl, inl, true, some, ◌≡◌, [], ◌∷◌, arith}
use libcn.Pool.{new_pool}
use libcn.Buf.{zero_buf}
use libcn.World.{World, zero_connection, zero_event}
use libcn.Connection.Fixture.{world}
use libcn.Epoll.Kernel.{Kernel, epoll_ctl, unwatched}
use libcn.Socket.{bytes, eintr}
use package.libcn.Echo.{Server, mywrite}
use package.libcn.Echo.Once.{WroteOnce, mywrite-WroteOnce}

abbrev busy : World
busy = record world {
  events = λ ev. record zero_event { data_ptr = 12; ready = true };
  connections = λ c. record zero_connection {
    read = 112;
    write = 212;
    fd = some 5;
    buffer = 9000;
    pool = 4096;
  };
}

abbrev server : Server Kernel
server = record {
  kernel = unwatched;
  world = busy;
  libc = record { answers = []; freed = []; bytes = λ a. 0 };
  buffers = λ b. record (zero_buf 9000) { start = 9100; pos = 9100; last = 9103; end = 10124 };
  pools = λ p. new_pool 4096 256;
  sends = eintr ∷ bytes 2 ∷ [];
  recvs = [];
  sent_from = [];
  received_at = [];
}

mywrite-WroteOnce_example :
    (v : Server Kernel) × (mywrite epoll_ctl 4 server 212 ≡ some v)
    × WroteOnce epoll_ctl server v 9000 3 2
    × (v.sends ≡ [])
mywrite-WroteOnce_example =
    mywrite-WroteOnce epoll_ctl 3 1 server 212 12 9000 3 (bytes 2) [] refl refl refl refl refl refl
      (omega arith) (omega arith) refl (inl refl) refl refl refl (omega arith)
