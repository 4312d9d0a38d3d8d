-- ===== src/Times/Tests.antt =====
-- Times and clocks at concrete readings.
use libcn.Prelude.{◌+◌, ◌*◌, ◌/◌, ◌%◌, ◌≡◌, refl, arith, u64, pos}
use libcn.Times.Calendar.{sgmtime}
use libcn.Times.Calendar.Correct.{IsDate, clamped, sgmtime-IsDate}
use libcn.Times.Clock.{Clock, Reading, IsClock, stime, stime_update, stime_update_lem}

sgmtime-IsDate_example :
    IsDate
      (sgmtime (pos 951782400))
      (clamped (pos 951782400) / 86400)
      (clamped (pos 951782400) % 86400)
sgmtime-IsDate_example = sgmtime-IsDate (pos 951782400)

abbrev clock : Clock
clock = record {
  slot = 3;
  time_lock = 0;
  current_msec = 0;
  scached_time = λ i. record { sec = i; msec = 0 };
  cached_time = 3;
}

clock-IsClock : IsClock clock
clock-IsClock = record { slot = omega arith; cached = refl; unlocked = refl }

abbrev reading : Reading
reading = record { tv_sec = 1000; tv_usec = 5000; mono_sec = 7; mono_nsec = 9 }

stime_update_lem_example :
    IsClock (stime_update clock reading)
    × ((stime (stime_update clock reading)).sec ≡ reading.tv_sec)
    × ((stime (stime_update clock reading)).msec ≡ reading.tv_usec / 1000)
    × ((stime_update clock reading).current_msec
        ≡ u64 (reading.mono_sec * 1000 + reading.mono_nsec / 1000000))
    × (stime_update (record clock { time_lock = 1 }) reading ≡ record clock { time_lock = 1 })
stime_update_lem_example = stime_update_lem clock reading clock-IsClock
