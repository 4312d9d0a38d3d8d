-- ===== src/Times/Clock.antt =====
-- `stime_init`, `stime_update` and `monotonic_time` of times.c: the time is kept in slots, so that
-- readers need no lock.
use libcn.Prelude.{
  ℕ, ◌+◌, ◌-◌, ◌*◌, ◌/◌, ◌%◌, ◌≤◌, ◌<◌, ◌≡◌, refl, List, [], ◌∷◌, arith, length, ◌==◌,
  if◌then◌else◌, write, u64, ◌∙◌,
}

-- `struct stime_s`; `gmtoff` is never written.
pub record Stime : Type 0 where
  pub sec : ℕ
  pub msec : ℕ

-- `TIME_SLOTS`.
abbrev pub time_slots : ℕ
time_slots = 64

-- The statics of times.c; `cached_time` is the index of the slot that it points to.
pub record Clock : Type 0 where
  pub slot : ℕ
  pub time_lock : ℕ
  pub current_msec : ℕ
  pub scached_time : ℕ → Stime
  pub cached_time : ℕ

-- What `gettimeofday` and `clock_gettime` answer.
pub record Reading : Type 0 where
  pub tv_sec : ℕ
  pub tv_usec : ℕ
  pub mono_sec : ℕ
  pub mono_nsec : ℕ

unfoldable pub monotonic_time : Reading → ℕ
monotonic_time r = u64 (r.mono_sec * 1000 + r.mono_nsec / 1000000)

-- `stime()`, and the milliseconds beside it.
abbrev pub stime : Clock → Stime
stime c = c.scached_time c.cached_time

-- The body of `stime_update` once the lock is held; it ends with `unlock`.
abbrev pub update_slots : Clock → Reading → Clock
update_slots c r =
    let msec = r.tv_usec / 1000 in
    let tp = c.scached_time c.slot in
    if tp.sec == r.tv_sec
    then record c {
      scached_time = write c.scached_time c.slot (record tp { msec = msec });
      time_lock = 0;
    }
    else (let slot = (if c.slot == time_slots - 1 then 0 else c.slot + 1) in
        record c {
          slot = slot;
          scached_time = write c.scached_time slot (record { sec = r.tv_sec; msec = msec });
          cached_time = slot;
          time_lock = 0;
        })

-- `trylock` fails, and the function returns, where the lock is not 0.
unfoldable pub stime_update : Clock → Reading → Clock
unfolding monotonic_time
stime_update c r =
    if c.time_lock == 0
    then update_slots (record c { time_lock = 1; current_msec = monotonic_time r }) r
    else c

unfoldable pub stime_init : Clock → Reading → Clock
unfolding stime_update
stime_init c r = stime_update (record c { cached_time = 0 }) r

-- The cached time is the current slot, and nobody holds the lock.
pub record IsClock (c : Clock) : Type 0 where
  pub slot : c.slot < time_slots
  pub cached : c.cached_time ≡ c.slot
  pub unlocked : c.time_lock ≡ 0

-- An update of a sound clock keeps it sound and frees the lock, and the time that readers then find
-- is the one that was read, in seconds and milliseconds; while another holds the lock, it changes
-- nothing.
pub stime_update_lem :
    (c : Clock) (r : Reading)
    → IsClock c
    → IsClock (stime_update c r)
      × ((stime (stime_update c r)).sec ≡ r.tv_sec)
      × ((stime (stime_update c r)).msec ≡ r.tv_usec / 1000)
      × ((stime_update c r).current_msec ≡ u64 (r.mono_sec * 1000 + r.mono_nsec / 1000000))
      × (stime_update (record c { time_lock = 1 }) r ≡ record c { time_lock = 1 })
unfolding stime_update
stime_update_lem c r v = ground arith

-- Slots to go through before the slot `i` is written again.
abbrev pub distance : Clock → ℕ → ℕ
distance c i = (i + time_slots - c.slot) % time_slots

unfoldable pub stime_updates : Clock → List Reading → Clock
stime_updates c [] = c
stime_updates c (r ∷ rs) = stime_updates (stime_update c r) rs

update_spares :
    (c : Clock) (r : Reading) (i : ℕ)
    → IsClock c
    → i < time_slots
    → 1 < distance c i
    → ((stime_update c r).scached_time i ≡ c.scached_time i)
      × (distance c i ≤ distance (stime_update c r) i + 1)
      × IsClock (stime_update c r)
unfolding stime_update
update_spares c r i v lt far = ground arith

-- On a sound clock, a slot is not written by fewer updates than there are slots up to it: the slot
-- that was left last stands for 62 more updates.
pub stime_updates-spare :
    (rs : List Reading) (c : Clock) (i : ℕ)
    → IsClock c
    → i < time_slots
    → length rs < distance c i
    → (stime_updates c rs).scached_time i ≡ c.scached_time i
unfolding stime_updates
stime_updates-spare [] c i v lt far = refl
stime_updates-spare (r ∷ rs) c i v lt far =
    let (same, d, v') = update_spares c r i v lt (omega arith) in
    stime_updates-spare rs (stime_update c r) i v' lt (omega arith) ∙ same
