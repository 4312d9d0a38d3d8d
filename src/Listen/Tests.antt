-- ===== src/Listen/Tests.antt =====
-- The default listening socket where `bind` fails.
use libcn.Prelude.{refl, ◌≡◌, true, false, Bool, [], length}
use package.libcn.Listen.{
  Call, setsockopt, ioctl_nonblocking, bind, close, listen, Opening, new_listener,
  configure_listening_sockets,
}

abbrev in_use : Call → Bool
in_use (bind s) = false
in_use (setsockopt s o v) = true
in_use (ioctl_nonblocking s) = true
in_use (close s) = true
in_use (listen s n) = true

abbrev opening : Opening
opening = record { listener = new_listener 4096 16; calls = [] }

test_configure : length (configure_listening_sockets opening).calls ≡ 6
unfolding configure_listening_sockets
test_configure = refl
