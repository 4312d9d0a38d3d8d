-- ===== src/Epoll/Interest.antt =====
-- What the kernel watches for a connection, and the `active` bits of its events.
use libcn.Prelude.{
  ℕ, Ptr, Bool, true, false, Option, none, some, not, ◌≡◌, ◌==◌, if◌then◌else◌, arith, Bool-cases,
  inl, inr, ◌⊎◌, ◌∙◌, ap,
}
use mathlib.Core.Option
use libcn.World.{World}
use package.libcn.Epoll.Control.{CtlOp, Interest, no_interest, epoll_add_event, epoll_del_event}

-- The two events of a connection are its own and are not the same.
pub record HasEvents (w : World) (c : Ptr) : Type 0 where
  pub read : (w.events (w.connections c).read).data_ptr ≡ c
  pub write : (w.events (w.connections c).write).data_ptr ≡ c
  pub apart : ((w.connections c).read == (w.connections c).write) ≡ false
  pub same :
      (w.events (w.connections c).read).instance_bit
      ≡ (w.events (w.connections c).write).instance_bit

-- The kernel watches the connection for just the events that are active, and hands back its address
-- and the instance bit of its events.
abbrev pub Agrees : Option Interest → World → Ptr → Type 0
Agrees none w c =
    ((w.events (w.connections c).read).active ≡ false)
    × ((w.events (w.connections c).write).active ≡ false)
Agrees (some i) w c =
    ((w.events (w.connections c).read).active ≡ i.readable)
    × ((w.events (w.connections c).write).active ≡ i.writable)
    × (i.connection ≡ c)
    × (i.instance_bit ≡ (w.events (w.connections c).read).instance_bit)

-- The event for reading or for writing.
abbrev pub event_of : World → Ptr → Bool → Ptr
event_of w c reading = if reading then (w.connections c).read else (w.connections c).write

module _ {K : Type 0} (epoll_ctl : K → CtlOp → Option ℕ → Interest → Option K)
    (watched : K → ℕ → Option Interest)
    (ctl_sets : (k k' : K) (s : ℕ) (i : Interest)
      → (epoll_ctl k CtlOp.ctl_add (some s) i ≡ some k')
        ⊎ (epoll_ctl k CtlOp.ctl_mod (some s) i ≡ some k')
      → watched k' s ≡ some i)
    (ctl_forgets : (k k' : K) (s : ℕ) (i : Interest)
      → epoll_ctl k CtlOp.ctl_del (some s) i ≡ some k'
      → watched k' s ≡ none) where
  -- What a call that succeeded did.
  performed :
      (o : Option K) (k' : K) (v w' : World)
      → Option.map {B = K × World} (λ k1. (k1, v)) o ≡ some (k', w')
      → (o ≡ some k') × (v ≡ w')
  performed none k' v w' e = absurd (ground arith)
  performed (some k1) k' v w' e = (ground arith, ground arith)

  stored :
      (k k' : K) (s : ℕ) (both : Bool) (fd : Option ℕ) (i : Interest)
      → fd ≡ some s
      → epoll_ctl k (if both then CtlOp.ctl_mod else CtlOp.ctl_add) fd i ≡ some k'
      → watched k' s ≡ some i
  stored k k' s true fd i e call = ctl_sets k k' s i (inr (rw e at call))
  stored k k' s false fd i e call = ctl_sets k k' s i (inl (rw e at call))

  -- Where `epoll_ctl` sets and forgets what it is told, a successful `epoll_add_event` of an event of
  -- an open connection makes it active, leaves the other event as it was, and the kernel then
  -- watches the connection for just its active events.
  pub epoll_add_event-Agrees :
      (k k' : K) (w w' : World) (c : Ptr) (s : ℕ) (reading edge : Bool)
      → HasEvents w c
      → (w.connections c).fd ≡ some s
      → epoll_add_event epoll_ctl k w (event_of w c reading) reading edge ≡ some (k', w')
      → Agrees (watched k' s) w' c
        × ((w'.events (event_of w c reading)).active ≡ true)
        × ((w'.events (event_of w c (not reading))).active
            ≡ (w.events (event_of w c (not reading))).active)
  unfolding epoll_add_event
  epoll_add_event-Agrees k k' w w' c s true edge h opened done =
      let (call, e) = performed _ k' _ w' done in
      let set = stored k k' s _ _ _ (ap (λ a. (w.connections a).fd) h.read ∙ opened) call in
      rw⁻¹ e (
        rw set
          ((ground arith, ground arith, ground arith, ground arith), ground arith, ground arith))
  epoll_add_event-Agrees k k' w w' c s false edge h opened done =
      let (call, e) = performed _ k' _ w' done in
      let set = stored k k' s _ _ _ (ap (λ a. (w.connections a).fd) h.write ∙ opened) call in
      rw⁻¹ e (
        rw set
          ((ground arith, ground arith, ground arith, ground arith), ground arith, ground arith))

  kept_or_forgotten :
      (k k' : K) (s : ℕ) (left : Bool) (fd : Option ℕ) (i : Interest)
      → fd ≡ some s
      → epoll_ctl k
          (if left then CtlOp.ctl_mod else CtlOp.ctl_del)
          fd
          (if left then i else no_interest)
        ≡ some k'
      → watched k' s ≡ (if left then some i else none)
  kept_or_forgotten k k' s true fd i e call = ctl_sets k k' s i (inr (rw e at call))
  kept_or_forgotten k k' s false fd i e call = ctl_forgets k k' s no_interest (rw e at call)

  -- Where `epoll_ctl` sets and forgets what it is told, a successful `epoll_del_event`, not for a
  -- close, of an event of an open connection makes it inactive and leaves the other event as it was,
  -- and the kernel then watches the connection for just its active events, or not at all.
  pub epoll_del_event-Agrees :
      (k k' : K) (w w' : World) (c : Ptr) (s : ℕ) (reading : Bool)
      → HasEvents w c
      → (w.connections c).fd ≡ some s
      → epoll_del_event epoll_ctl k w (event_of w c reading) reading false ≡ some (k', w')
      → Agrees (watched k' s) w' c
        × ((w'.events (event_of w c reading)).active ≡ false)
        × ((w'.events (event_of w c (not reading))).active
            ≡ (w.events (event_of w c (not reading))).active)
  unfolding epoll_del_event
  epoll_del_event-Agrees k k' w w' c s true h opened done =
      let (call, e) = performed _ k' _ w' done in
      let set =
        kept_or_forgotten k k' s _ _ _ (ap (λ a. (w.connections a).fd) h.read ∙ opened) call in
      rw⁻¹ e
        (elim (Bool-cases
          (w.events (w.connections (w.events (w.connections c).read).data_ptr).write).active) [
            | inl l ↦
                rw (set, l)
                  (
                    (ground arith, ground arith, ground arith, ground arith),
                    ground arith,
                    ground arith,
                  )
            | inr l ↦ rw (set, l) ((ground arith, ground arith), ground arith, ground arith)
          ])
  epoll_del_event-Agrees k k' w w' c s false h opened done =
      let (call, e) = performed _ k' _ w' done in
      let set =
        kept_or_forgotten k k' s _ _ _ (ap (λ a. (w.connections a).fd) h.write ∙ opened) call in
      rw⁻¹ e
        (elim (Bool-cases
          (w.events (w.connections (w.events (w.connections c).write).data_ptr).read).active) [
            | inl l ↦
                rw (set, l)
                  (
                    (ground arith, ground arith, ground arith, ground arith),
                    ground arith,
                    ground arith,
                  )
            | inr l ↦ rw (set, l) ((ground arith, ground arith), ground arith, ground arith)
          ])
