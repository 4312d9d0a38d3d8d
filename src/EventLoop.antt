-- ===== src/EventLoop.antt =====
-- The round of a worker, `process_events_and_timers` of event.c, and `epoll_process_events` around the
-- handling of the events. Handlers act on the world alone: what an `event_accept` does to the mutex and
-- what a handler asks of epoll is outside this round.
use libcn.Prelude.{
  ℕ, zero, suc, ◌-◌, Ptr, Bool, true, false, Option, none, some, List, not, ◌||◌, ◌==◌, ltb,
  if◌then◌else◌, ℤ, pos, negsuc,
}
mod Released
mod Tests
use libcn.World.{World}
use libcn.Timer.{timer_infinite, event_find_timer, event_expire_timers}
use libcn.Posted.{event_process_posted}
use libcn.Mutex.{shmtx_force_unlock}
use libcn.Epoll.{EpollEvent, process_all}
use libcn.Epoll.Control.{CtlOp, Interest}
use libcn.Accept.{Listening, Accepting, trylock_accept_mutex}

-- `ACCEPT_MUTEX_DELAY`.
abbrev pub accept_mutex_delay : ℕ
accept_mutex_delay = 500

-- One worker: its part of the accept mutex, and `use_accept_mutex` and `accept_disabled`.
pub record Worker (K : Type 0) : Type 0 where
  pub accepting : Accepting K
  pub use_accept_mutex : Bool
  pub accept_disabled : ℤ

abbrev pub above_zero : ℤ → Bool
above_zero (pos zero) = false
above_zero (pos (suc n)) = true
above_zero (negsuc n) = false

-- `n - 1` for `n > 0`.
abbrev pub decrement : ℤ → ℤ
decrement (pos n) = pos (n - 1)
decrement (negsuc n) = negsuc (suc n)

-- What a call of `epoll_wait` comes back with: the events, none on an error or a timeout, the clock, and
-- whether the timer's signal has arrived.
pub record Waited : Type 0 where
  pub ready : List EpollEvent
  pub now : ℕ
  pub alarm : Bool

unfoldable pub epoll_process_events :
    (Ptr → World → Option World) → Bool → Bool → Waited → World → Option World
epoll_process_events handle post update waited w =
    let w1 = if update || waited.alarm then record w { current_msec = waited.now } else w in
    process_all handle post w1 waited.ready

-- Whether the round goes on, its timer, whether events are posted, and the worker.
pub record Admission (K : Type 0) : Type 0 where
  pub goes_on : Bool
  pub timer : ℕ
  pub post : Bool
  pub worker : Worker K

module _ {K : Type 0} (epoll_ctl : K → CtlOp → Option ℕ → Interest → Option K) where
  -- The part of `process_events_and_timers` that tries the accept mutex.
  unfoldable pub admit : Worker K → Listening → ℕ → ℕ → Admission K
  admit s ls pid timer =
      let (ok, a) = trylock_accept_mutex epoll_ctl s.accepting ls pid in
      let tried = record s { accepting = a } in
      let delayed =
        if timer == timer_infinite || ltb accept_mutex_delay timer
        then accept_mutex_delay
        else timer in
      if not s.use_accept_mutex
      then record { goes_on = true; timer = timer; post = false; worker = s }
      else if above_zero s.accept_disabled
      then record {
        goes_on = true;
        timer = timer;
        post = false;
        worker = record s { accept_disabled = decrement s.accept_disabled };
      }
      else if not ok
      then record { goes_on = false; timer = timer; post = false; worker = tried }
      else if a.accept_mutex_held
      then record { goes_on = true; timer = timer; post = true; worker = tried }
      else record { goes_on = true; timer = delayed; post = false; worker = tried }

-- `shmtx_unlock(&accept_mutex)` where the mutex is held.
abbrev pub release : Bool → ℕ → ℕ → ℕ
release held word pid = if held then (shmtx_force_unlock word pid).1 else word

-- The part after `epoll_process_events`, at the clock `before`.
unfoldable pub after_events :
    {K : Type 0} → ℕ → (Ptr → World → Option World) → ℕ → ℕ → Worker K → World → Option (Worker K)
after_events fuel handle pid before s w1 =
    let a = s.accepting in
    elim (event_process_posted fuel handle w1 w1.posted_accept_events) [
      | none ↦ none
      | some w2 ↦
          elim (if w1.current_msec == before
            then some w2
            else event_expire_timers fuel fuel handle w2) [
              | none ↦ none
              | some w3 ↦ elim (event_process_posted fuel handle w3 w3.posted_events) [
                | none ↦ none
                | some w4 ↦ some (record s {
                  accepting = record a {
                    world = w4;
                    word = release a.accept_mutex_held a.word pid;
                  };
                })
              ]
            ]
    ]

module _ {K : Type 0} (epoll_ctl : K → CtlOp → Option ℕ → Interest → Option K) where
  -- `resolution` is whether `timer_resolution` is set, and `wait` answers the call of `epoll_wait` with
  -- a timer; `none` when the fuel of a loop runs out.
  unfoldable pub process_events_and_timers :
      ℕ
      → (Ptr → World → Option World)
      → (ℕ → Waited)
      → Bool
      → Worker K
      → Listening
      → ℕ
      → Option (Worker K)
  unfolding admit epoll_process_events after_events
  process_events_and_timers fuel handle wait resolution s ls pid =
      elim (if resolution then some timer_infinite else event_find_timer fuel s.accepting.world) [
        | none ↦ none
        | some timer ↦
            let m = admit epoll_ctl s ls pid timer in
            let w = m.worker.accepting.world in
            let done : Option (Worker K) =
              elim (epoll_process_events handle m.post (not resolution) (wait m.timer) w) [
                | none ↦ none
                | some w1 ↦ after_events fuel handle pid w.current_msec m.worker w1
              ] in
            if m.goes_on then done else some m.worker
      ]
