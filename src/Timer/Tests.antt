-- ===== src/Timer/Tests.antt =====
-- Timers on both sides of the overflow.
use libcn.Prelude.{◌+◌, ◌-◌, ◌^◌, ◌≡◌, arith, ltb, u64}
use package.libcn.Timer.{timer_less}
use package.libcn.Timer.Order.{timer_less_delays}

timer_less_delays_example :
    timer_less (u64 (2 ^ 64 - 1 + 100)) (u64 (2 ^ 64 - 1 + 200)) ≡ ltb 100 200
timer_less_delays_example = timer_less_delays (2 ^ 64 - 1) 100 200 (omega arith) (omega arith)
