-- ===== src/Times/Calendar.antt =====
-- `sgmtime` of times.c: the date and the time of day of a number of seconds since 1970.
mod Count
pub mod Correct
use libcn.Prelude.{
  ℕ, ◌+◌, ◌-◌, ◌*◌, ◌/◌, ◌%◌, Bool, ℤ, pos, negsuc, ltb, leb, ◌==◌, if◌then◌else◌, ◌&&◌, ◌||◌, not,
  u64, sub64,
}

-- The fields of `struct tm` that the function sets; `mon` counts from 1 and `year` is the full year.
pub record Tm : Type 0 where
  pub sec : ℕ
  pub min : ℕ
  pub hour : ℕ
  pub mday : ℕ
  pub mon : ℕ
  pub year : ℕ
  pub wday : ℕ

-- The day of December 31, 9999.
abbrev pub last_day : ℕ
last_day = 2932896

-- `365 * year + year / 4 - year / 100 + year / 400`.
unfoldable pub days_before : ℕ → ℕ
days_before year = 365 * year + year / 4 - year / 100 + year / 400

-- `(year % 4 == 0) && (year % 100 || (year % 400 == 0))`.
unfoldable pub leap : ℕ → ℕ
leap year = if year % 4 == 0 && (not (year % 100 == 0) || year % 400 == 0) then 1 else 0

-- The year that begins on March 1 and the day in it, of a day counted from March 1, 1 BC.
unfoldable pub march_year : ℕ → ℕ × ℕ
march_year days =
    let year = (days + 2) * 400 / (365 * 400 + 100 - 4 + 1) in
    if ltb days (days_before year)
    then (year - 1, 365 + leap year + days - days_before year)
    else (year, days - days_before year)

-- The month and its day, of a day of such a year; the months count from March = 1.
unfoldable pub month_of : ℕ → ℕ
month_of yday = (yday + 31) * 10 / 306

unfoldable pub mday_of : ℕ → ℕ
unfolding month_of
mday_of yday = u64 (sub64 yday (sub64 (367 * month_of yday / 12) 30) + 1)

-- The date fields, with the turn of the year moved to January.
unfoldable pub set_date : Tm → ℕ × ℕ → Tm
set_date tm (year, yday) =
    if leb 306 yday
    then record tm { mday = mday_of yday; mon = month_of yday - 10; year = year + 1 }
    else record tm { mday = mday_of yday; mon = month_of yday + 2; year = year }

-- The fields that are set before the date is computed.
abbrev pub clock_fields : ℕ → ℕ → Tm
clock_fields days sec = record {
  sec = sec % 3600 % 60;
  min = sec % 3600 / 60;
  hour = sec / 3600;
  mday = 0;
  mon = 0;
  year = 0;
  wday = (4 + days) % 7;
}

-- The rest of the function, from `wday` on.
unfoldable pub from_days : ℕ → ℕ → Tm
from_days days sec =
    set_date (clock_fields days sec) (march_year (u64 (sub64 days (31 + 28) + 719527)))

unfoldable pub sgmtime : ℤ → Tm
sgmtime (negsuc _) = from_days 0 0
sgmtime (pos t) =
    if ltb last_day (t / 86400) then from_days last_day 86399 else from_days (t / 86400) (t % 86400)
