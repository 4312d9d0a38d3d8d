-- ===== src/Epoll/Control.antt =====
-- `epoll_add_event`, `epoll_del_event`, `epoll_add_connection` and `epoll_del_connection` of
-- epoll_event.c, and their callers `handle_read_event` and `handle_write_event` of event.c. The
-- interest list stays in the kernel: its state `K` and `epoll_ctl` are parameters.
use libcn.Prelude.{ℕ, Ptr, Bool, true, false, Option, none, some, not, ◌&&◌, if◌then◌else◌}
use mathlib.Core.Option
use libcn.World.{World, set_event}

-- `EPOLL_CTL_ADD`, `EPOLL_CTL_MOD`, `EPOLL_CTL_DEL`.
pub data CtlOp : Type 0 where
  ctl_add ctl_mod ctl_del : CtlOp

-- `struct epoll_event` as it is given to the kernel: `EPOLLIN | EPOLLRDHUP`, `EPOLLOUT`, `EPOLLET`,
-- and the connection and the instance bit of `data.ptr`.
pub record Interest : Type 0 where
  pub readable : Bool
  pub writable : Bool
  pub edge : Bool
  pub connection : Ptr
  pub instance_bit : Bool

-- `ee.events = 0; ee.data.ptr = NULL`.
abbrev pub no_interest : Interest
no_interest = record {
  readable = false;
  writable = false;
  edge = false;
  connection = 0;
  instance_bit = false;
}

abbrev pub set_active : World → Ptr → Bool → World
set_active w ev b = set_event w ev (record (w.events ev) { active = b })

-- The other event of the connection.
abbrev pub partner : World → Ptr → Bool → Ptr
partner w c reading = if reading then (w.connections c).write else (w.connections c).read

module _ {K : Type 0} (epoll_ctl : K → CtlOp → Option ℕ → Interest → Option K) where
  -- `reading` tells `READ_EVENT` from `WRITE_EVENT`, `edge` is `CLEAR_EVENT`; `none` is the return
  -- of -1, which leaves all as it is.
  unfoldable pub epoll_add_event : K → World → Ptr → Bool → Bool → Option (K × World)
  epoll_add_event k w ev reading edge =
      let c = (w.events ev).data_ptr in
      let both = (w.events (partner w c reading)).active in
      let op = if both then CtlOp.ctl_mod else CtlOp.ctl_add in
      let ee : Interest = record {
        readable = if reading then true else both;
        writable = if reading then both else true;
        edge = edge;
        connection = c;
        instance_bit = (w.events ev).instance_bit;
      } in
      Option.map {B = K × World} (λ k'. (k', set_active w ev true))
        (epoll_ctl k op (w.connections c).fd ee)

  -- `closing` is `CLOSE_EVENT`: the kernel forgets the descriptor when it is closed.
  unfoldable pub epoll_del_event : K → World → Ptr → Bool → Bool → Option (K × World)
  epoll_del_event k w ev reading closing =
      let c = (w.events ev).data_ptr in
      let left = (w.events (partner w c reading)).active in
      let op = if left then CtlOp.ctl_mod else CtlOp.ctl_del in
      let kept : Interest = record {
        readable = not reading;
        writable = reading;
        edge = false;
        connection = c;
        instance_bit = (w.events ev).instance_bit;
      } in
      let ee = if left then kept else no_interest in
      let done =
        Option.map {B = K × World} (λ k'. (k', set_active w ev false))
          (epoll_ctl k op (w.connections c).fd ee) in
      if closing then some (k, set_active w ev false) else done

  -- The return is 0 either way.
  unfoldable pub epoll_add_connection : K → World → Ptr → K × World
  epoll_add_connection k w c =
      let rev = (w.connections c).read in
      let ee : Interest = record {
        readable = true;
        writable = true;
        edge = true;
        connection = c;
        instance_bit = (w.events rev).instance_bit;
      } in
      elim (epoll_ctl k CtlOp.ctl_add (w.connections c).fd ee) [
        | none ↦ (k, w)
        | some k' ↦ (k', set_active (set_active w rev true) (w.connections c).write true)
      ]

  unfoldable pub epoll_del_connection : K → World → Ptr → Bool → Option (K × World)
  epoll_del_connection k w c closing =
      let idle =
        set_active (set_active w (w.connections c).read false) (w.connections c).write false in
      let done : Option (K × World) =
        elim (epoll_ctl k CtlOp.ctl_del (w.connections c).fd no_interest) [
          | none ↦ none
          | some k' ↦ some (k', idle)
        ] in
      if closing then some (k, idle) else done

  unfoldable pub handle_read_event : K → World → Ptr → Option (K × World)
  handle_read_event k w rev =
      let added = epoll_add_event k w rev true true in
      if not (w.events rev).active && not (w.events rev).ready then added else some (k, w)

  -- `lowat` is 0 in every call of the program, so that `send_lowat` is not called.
  unfoldable pub handle_write_event : K → World → Ptr → Option (K × World)
  handle_write_event k w wev =
      let added = epoll_add_event k w wev false true in
      if not (w.events wev).active && not (w.events wev).ready then added else some (k, w)
