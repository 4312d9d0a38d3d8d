-- ===== src/Timer/Order.antt =====
-- The order of the timers across the overflow of the millisecond clock.
use libcn.Prelude.{ℕ, ◌+◌, ◌<◌, ◌^◌, ◌≡◌, arith, ltb, u64}
use package.libcn.Timer.{timer_less}

-- Two keys less than 2^63 milliseconds after a common time `base` compare as the delays do, also
-- where the 64-bit sums overflow.
pub timer_less_delays :
    (base x y : ℕ)
    → x < 2 ^ 63
    → y < 2 ^ 63
    → timer_less (u64 (base + x)) (u64 (base + y)) ≡ ltb x y
unfolding timer_less
timer_less_delays base x y hx hy = ground arith
