-- ===== src/Listen.antt =====
-- connection.c: the listening socket, from its defaults to the calls of the operating system.
use libcn.Prelude.{
  ℕ, zero, suc, Ptr, null, Bool, true, false, Option, none, some, List, [], ◌∷◌, not, ◌&&◌, ◌||◌,
  ◌==◌, if◌then◌else◌, ℤ, pos, negsuc,
}
mod Sockets
mod Tests
use libcn.Alloc.{Libc}
use libcn.Pool.{Pool, palloc}

-- The options of `setsockopt` that are set.
pub data SockOpt : Type 0 where
  so_reuseaddr so_reuseport so_rcvbuf so_sndbuf so_keepalive : SockOpt
  tcp_keepidle tcp_keepintvl tcp_keepcnt tcp_fastopen tcp_defer_accept : SockOpt

-- The calls of the operating system; `none` is the descriptor -1.
pub data Call : Type 0 where
  setsockopt : Option ℕ → SockOpt → ℤ → Call
  ioctl_nonblocking bind close : ℕ → Call
  listen : Option ℕ → ℕ → Call

-- The fields of `struct listening_s` that are used here.
pub record Listener : Type 0 where
  pub fd : Option ℕ
  pub sockaddr : Ptr
  pub socklen : ℕ
  pub backlog : ℕ
  pub rcvbuf : ℤ
  pub sndbuf : ℤ
  pub keepidle : ℕ
  pub keepintvl : ℕ
  pub keepcnt : ℕ
  pub pool_size : ℕ
  pub post_accept_timeout : ℕ
  pub ignore : Bool
  pub listening : Bool
  pub reuseport : Bool
  pub add_reuseport : Bool
  pub keepalive : ℕ
  pub deferred_accept : Bool
  pub delete_deferred : Bool
  pub add_deferred : Bool
  pub fastopen : ℤ

-- `sizeof(listening_t)` under the System V ABI of x86-64.
abbrev pub sizeof_listening : ℕ
sizeof_listening = 184

abbrev pub new_listener : Ptr → ℕ → Listener
new_listener sa socklen = record {
  fd = none;
  sockaddr = sa;
  socklen = socklen;
  backlog = 511;
  rcvbuf = negsuc 0;
  sndbuf = negsuc 0;
  keepidle = 7200;
  keepintvl = 75;
  keepcnt = 9;
  pool_size = 256;
  post_accept_timeout = 300;
  ignore = false;
  listening = false;
  reuseport = false;
  add_reuseport = false;
  keepalive = 1;
  deferred_accept = false;
  delete_deferred = false;
  add_deferred = true;
  fastopen = pos 1;
}

-- The rest of `create_listening` after its second request, then after its first.
abbrev pub with_address : Ptr → ℕ → Option Ptr × Pool × Libc → Option (Ptr × Listener) × Pool × Libc
with_address ls socklen (none, p, s) = (none, p, s)
with_address ls socklen (some sa, p, s) = (some (ls, new_listener sa socklen), p, s)

abbrev pub with_listening : ℕ → Option Ptr × Pool × Libc → Option (Ptr × Listener) × Pool × Libc
with_listening socklen (none, p, s) = (none, p, s)
with_listening socklen (some ls, p, s) = with_address ls socklen (palloc s p socklen)

-- The address of the `listening_t` and its fields.
unfoldable pub create_listening : Libc → Pool → ℕ → Option (Ptr × Listener) × Pool × Libc
create_listening s p socklen = with_listening socklen (palloc s p sizeof_listening)

-- The listening socket and the calls made so far, the latest first.
pub record Opening : Type 0 where
  pub listener : Listener
  pub calls : List Call

abbrev pub call : Call → Opening → Opening
call c o = record o { calls = c ∷ o.calls }

abbrev pub is_set : Option ℕ → Bool
is_set none = false
is_set (some s) = true

abbrev pub given : ℤ → Bool
given (negsuc zero) = false
given (negsuc (suc n)) = true
given (pos n) = true

abbrev pub call_if : Bool → Call → Opening → Opening
call_if true c o = call c o
call_if false c o = o

-- `answers` tells whether a call succeeds, and `new_socket` is the answer of `socket`.
module _ (answers : Call → Bool) (new_socket : Option ℕ) where
  -- The part of `open_listening_sockets` from `ioctl` on; the Boolean is whether the return is 0.
  unfoldable pub bind_socket : ℕ → Opening → Bool × Opening
  bind_socket s o =
      let o1 = call (ioctl_nonblocking s) o in
      let o2 = call (bind s) o1 in
      let o3 = call (listen (some s) o.listener.backlog) o2 in
      if not (answers (ioctl_nonblocking s))
      then (false, o1)
      else if not (answers (bind s))
      then (false, call (close s) o2)
      else if not (answers (listen (some s) o.listener.backlog))
      then (false, call (close s) o3)
      else (true, record o3 { listener = record o.listener { listening = true; fd = some s } })

  -- The part from the moment at which there is a socket `s`.
  unfoldable pub open_socket : ℕ → Opening → Bool × Opening
  unfolding bind_socket
  open_socket s o =
      let addr = setsockopt (some s) SockOpt.so_reuseaddr (pos 1) in
      let port = setsockopt (some s) SockOpt.so_reuseport (pos 1) in
      let o1 = call addr o in
      let o2 = call_if o.listener.reuseport port o1 in
      let bound = bind_socket s o2 in
      if not (answers addr)
      then (false, call (close s) o1)
      else if o.listener.reuseport && not (answers port)
      then (false, call (close s) o2)
      else bound

  unfoldable pub open_listening_sockets : Opening → Bool × Opening
  unfolding open_socket
  open_listening_sockets o =
      let o1 =
        if o.listener.add_reuseport
        then record (call (setsockopt o.listener.fd SockOpt.so_reuseport (pos 1)) o) {
          listener = record o.listener { add_reuseport = false };
        }
        else o in
      if o.listener.ignore
      then (false, o)
      else if is_set o1.listener.fd
      then (false, o1)
      else elim new_socket [ none ↦ (false, o1) | some s ↦ open_socket s o1 ]

abbrev pub set_if : Bool → SockOpt → ℤ → Opening → Opening
set_if b option value o = call_if b (setsockopt o.listener.fd option value) o

-- No answer of these calls is used.
unfoldable pub configure_listening_sockets : Opening → Opening
configure_listening_sockets o =
    let ls = o.listener in
    let o1 = set_if (given ls.rcvbuf) SockOpt.so_rcvbuf ls.rcvbuf o in
    let o2 = set_if (given ls.sndbuf) SockOpt.so_sndbuf ls.sndbuf o1 in
    let o3 =
      set_if (not (ls.keepalive == 0)) SockOpt.so_keepalive
        (if ls.keepalive == 1 then pos 1 else pos 0) o2 in
    let o4 = set_if (not (ls.keepidle == 0)) SockOpt.tcp_keepidle (pos ls.keepidle) o3 in
    let o5 = set_if (not (ls.keepintvl == 0)) SockOpt.tcp_keepintvl (pos ls.keepintvl) o4 in
    let o6 = set_if (not (ls.keepcnt == 0)) SockOpt.tcp_keepcnt (pos ls.keepcnt) o5 in
    let o7 = set_if (given ls.fastopen) SockOpt.tcp_fastopen ls.fastopen o6 in
    let o8 = call_if ls.listening (listen ls.fd ls.backlog) o7 in
    let o9 =
      set_if (ls.add_deferred || ls.delete_deferred) SockOpt.tcp_defer_accept
        (if ls.add_deferred then pos 1 else pos 0) o8 in
    if ls.add_deferred then record o9 { listener = record ls { deferred_accept = true } } else o9
