-- ===== src/Times/Calendar/Correct.antt =====
-- `sgmtime` gives the date and the time of day.
use mathlib.Core.Path.{subst, sym, ◌∙◌}
use native.Mathlib.Decide.{dec_le}
use libcn.Prelude.{
  ℕ, zero, suc, ◌+◌, ◌-◌, ◌*◌, ◌/◌, ◌%◌, ◌≤◌, ◌<◌, ◌≡◌, refl, Bool, true, arith, ltb, leb, ◌==◌, ℤ,
  pos, negsuc, if◌then◌else◌, ◌&&◌, Bool-cases, inl, inr, and_true, leb→le, ==→eq, u64, sub64,
}
use package.libcn.Times.Calendar.{
  Tm, last_day, days_before, leap, march_year, month_of, mday_of, set_date, clock_fields, from_days,
  sgmtime,
}
use package.libcn.Times.Calendar.Count.{
  days_of_years, month_days, nth, sum_first, days_before_suc, days_of_years-closed, leap-le,
  march_year_lem,
}

-- The days below a bound that pass a test, checked one after the other.
table : (ℕ → Bool) → ℕ → Bool
table test zero = true
table test (suc d) = table test d && test d

table_lem : (test : ℕ → Bool) (d bound : ℕ) → d < bound → table test bound ≡ true → test d ≡ true
unfolding table
table_lem test d zero lt t = absurd (omega arith)
table_lem test d (suc b) lt t = ground (arith, table_lem test d b)

-- The month `mon` and its day `mday` are those of day `day`, counted from 1, of a year with
-- February of 28 + `l` days.
record IsDay (l mon mday day : ℕ) : Type 0 where
  from : 1 ≤ mon
  to : mon ≤ 12
  first : 1 ≤ mday
  last : mday ≤ nth (month_days l) (mon - 1)
  count : sum_first (month_days l) (mon - 1) + mday ≡ day

abbrev is_day : ℕ → ℕ → ℕ → ℕ → Bool
is_day l mon mday day =
    leb 1 mon
    && leb mon 12
    && leb 1 mday
    && leb mday (nth (month_days l) (mon - 1))
    && sum_first (month_days l) (mon - 1) + mday == day

is_day-IsDay : (l mon mday day : ℕ) → is_day l mon mday day ≡ true → IsDay l mon mday day
is_day-IsDay l mon mday day h =
    let (h4, e) = and_true _ (sum_first (month_days l) (mon - 1) + mday == day) h in
    let (h3, d) = and_true _ (leb mday (nth (month_days l) (mon - 1))) h4 in
    let (h2, c) = and_true _ (leb 1 mday) h3 in
    let (a, b) = and_true _ (leb mon 12) h2 in
    record {
      from = leb→le 1 mon a;
      to = leb→le mon 12 b;
      first = leb→le 1 mday c;
      last = leb→le mday (nth (month_days l) (mon - 1)) d;
      count = ==→eq (sum_first (month_days l) (mon - 1) + mday) day e;
    }

-- From March on, by table.
abbrev late_check : ℕ → ℕ → Bool
late_check l yday = is_day l (month_of yday + 2) (mday_of yday) (60 + l + yday)

late_table : (table (late_check 0) 306 ≡ true) × (table (late_check 1) 306 ≡ true)
unfolding table mday_of
late_table = (refl, refl)

-- In January and February; February 29 is the day 365 of the year that begins in March.
abbrev early_check : ℕ → ℕ → Bool
early_check l n = is_day l (month_of (n + 306) - 10) (mday_of (n + 306)) (n + 1)

early_table : (table (early_check 0) 59 ≡ true) × (table (early_check 1) 60 ≡ true)
unfolding table mday_of
early_table = (refl, refl)

late-IsDay :
    (l yday : ℕ) → l ≤ 1 → yday < 306 → IsDay l (month_of yday + 2) (mday_of yday) (60 + l + yday)
late-IsDay zero yday h lt = is_day-IsDay 0 _ _ _ (table_lem (late_check 0) yday 306 lt late_table.0)
late-IsDay (suc zero) yday h lt =
    is_day-IsDay 1 _ _ _ (table_lem (late_check 1) yday 306 lt late_table.1)
late-IsDay (suc (suc l)) yday h lt = absurd (omega arith)

early-IsDay :
    (l n : ℕ) → l ≤ 1 → n < 59 + l → IsDay l (month_of (n + 306) - 10) (mday_of (n + 306)) (n + 1)
early-IsDay zero n h lt = is_day-IsDay 0 _ _ _ (table_lem (early_check 0) n 59 lt early_table.0)
early-IsDay (suc zero) n h lt =
    is_day-IsDay 1 _ _ _ (table_lem (early_check 1) n 60 lt early_table.1)
early-IsDay (suc (suc l)) n h lt = absurd (omega arith)

-- The fields are the date of day `days` after January 1, 1970 and the time after `sec` seconds:
-- the days of the years and months before it, counted one by one, and the day of the month.
pub record IsDate (tm : Tm) (days sec : ℕ) : Type 0 where
  pub since : 1970 ≤ tm.year
  pub from : 1 ≤ tm.mon
  pub to : tm.mon ≤ 12
  pub first : 1 ≤ tm.mday
  pub last : tm.mday ≤ nth (month_days (leap tm.year)) (tm.mon - 1)
  pub count :
      days_of_years (tm.year - 1970) + sum_first (month_days (leap tm.year)) (tm.mon - 1) + tm.mday
      ≡ days + 1
  pub time : tm.hour * 3600 + tm.min * 60 + tm.sec ≡ sec
  pub hours : tm.hour < 24
  pub mins : tm.min < 60
  pub secs : tm.sec < 60
  pub week : tm.wday ≡ (4 + days) % 7

days_before_mono : (y z : ℕ) → y ≤ z → days_before y ≤ days_before z
unfolding days_before
days_before_mono y z h = omega arith

-- March 1 of the year 1970 + `n`, counted from January 1, 1970.
march_first : (n : ℕ) → days_before (1970 + n) ≡ days_of_years n + 719468 + 59 + leap (1970 + n)
march_first n =
    let e : 1970 + n ≡ (1969 + n) + 1 = omega arith in
    rw (e, days_before_suc (1969 + n)) (omega (arith, days_of_years-closed n))

-- What `set_date` makes of the day `yday` of a year that begins on March 1, on day `days` after
-- January 1, 1970.
record Placed (year mon mday days : ℕ) : Type 0 where
  since : 1970 ≤ year
  day : IsDay (leap year) mon mday (days + 1 - days_of_years (year - 1970))
  begun : days_of_years (year - 1970) ≤ days

late_Placed :
    (year yday days : ℕ)
    → days_before year + yday ≡ days + 719468
    → yday < 306
    → Placed year (month_of yday + 2) (mday_of yday) days
late_Placed year yday days e lt =
    let since : 1970 ≤ year = late_since in
    let y : year ≡ 1970 + (year - 1970) = omega arith in
    let m : days_before year ≡ days_of_years (year - 1970) + 719468 + 59 + leap year =
      subst (λ z. days_before z ≡ days_of_years (year - 1970) + 719468 + 59 + leap z) (sym y)
        (march_first (year - 1970)) in
    let d : days + 1 - days_of_years (year - 1970) ≡ 60 + leap year + yday = omega arith in
    record {
      since = since;
      day = rw d (late-IsDay (leap year) yday (leap-le year) lt);
      begun = omega arith;
    }
  where
    late_since : 1970 ≤ year
    late_since = elim (dec_le 1970 year) [
      | yes h ↦ h
      | no h ↦ absurd (omega (arith, days_before_mono year 1969 (omega arith), start))
    ]
      where
        start : days_before 1969 ≡ 719162
        start = unfold days_before in refl

early_Placed :
    (year n days : ℕ)
    → days_before year + (n + 306) ≡ days + 719468
    → days + 719468 < days_before (year + 1)
    → Placed (year + 1) (month_of (n + 306) - 10) (mday_of (n + 306)) days
early_Placed year n days e lt =
    let since : 1969 ≤ year = early_since in
    let y : 1969 + (year + 1 - 1970) ≡ year = omega arith in
    let m : days_of_years (year + 1 - 1970) + 719468 ≡ days_before year + 306 =
      subst (λ z. days_of_years (year + 1 - 1970) + 719468 ≡ days_before z + 306) y
        (days_of_years-closed (year + 1 - 1970)) in
    let d : days + 1 - days_of_years (year + 1 - 1970) ≡ n + 1 = omega arith in
    record {
      since = omega arith;
      day = rw d (
          early-IsDay (leap (year + 1)) n (leap-le (year + 1))
            (omega (arith, days_before_suc year)));
      begun = omega arith;
    }
  where
    early_since : 1969 ≤ year
    early_since = elim (dec_le 1969 year) [
      | yes h ↦ h
      | no h ↦ absurd (omega (arith, days_before_mono (year + 1) 1969 (omega arith), start))
    ]
      where
        start : days_before 1969 ≡ 719162
        start = unfold days_before in refl

set_date-Placed :
    (tm : Tm) (year yday days : ℕ)
    → days_before year + yday ≡ days + 719468
    → days + 719468 < days_before (year + 1)
    → Placed
        (set_date tm (year, yday)).year
        (set_date tm (year, yday)).mon
        (set_date tm (year, yday)).mday
        days
unfolding set_date
set_date-Placed tm year yday days e lt = elim (Bool-cases (leb 306 yday)) [
  | inl early ↦
      let le = leb→le 306 yday early in
      let n : yday ≡ yday - 306 + 306 = omega arith in
      rw (early, n) (early_Placed year (yday - 306) days (omega arith) lt)
  | inr late ↦ rw late (late_Placed year yday days e (ground arith))
]

set_date-clock :
    (tm : Tm) (d : ℕ × ℕ)
    → ((set_date tm d).sec ≡ tm.sec)
      × ((set_date tm d).min ≡ tm.min)
      × ((set_date tm d).hour ≡ tm.hour)
      × ((set_date tm d).wday ≡ tm.wday)
unfolding set_date
set_date-clock tm (year, yday) = ground arith

from_days-IsDate :
    (days sec : ℕ) → days ≤ last_day → sec < 86400 → IsDate (from_days days sec) days sec
unfolding from_days
from_days-IsDate days sec le lt =
    let n : ℕ = u64 (sub64 days (31 + 28) + 719527) in
    let exact : n ≡ days + 719468 = omega arith in
    let (e, high) = march_year_lem n in
    let p =
      set_date-Placed (clock_fields days sec) (march_year n).0 (march_year n).1 days (e ∙ exact)
        (omega arith) in
    let (s, m, h, w) = set_date-clock (clock_fields days sec) (march_year n) in
    let d = p.day in
    let counted = d.count in
    let begun = p.begun in
    record {
      since = p.since;
      from = d.from;
      to = d.to;
      first = d.first;
      last = d.last;
      count = omega arith;
      time = rw (s, m, h) (omega arith);
      hours = rw h (omega arith);
      mins = rw m (omega arith);
      secs = rw s (omega arith);
      week = w;
    }

-- What a time stands for: nothing before 1970, and nothing after December 31, 9999, 23:59:59.
abbrev pub clamped : ℤ → ℕ
clamped (negsuc _) = 0
clamped (pos t) = if ltb last_day (t / 86400) then last_day * 86400 + 86399 else t

-- For every time, `sgmtime` gives the date of its day, the time in that day and the weekday, after
-- the time is moved into the range from January 1, 1970 to the end of the year 9999.
pub sgmtime-IsDate : (t : ℤ) → IsDate (sgmtime t) (clamped t / 86400) (clamped t % 86400)
unfolding sgmtime
sgmtime-IsDate (negsuc n) = from_days-IsDate 0 0 (omega arith) (omega arith)
sgmtime-IsDate (pos t) = elim (Bool-cases (ltb last_day (t / 86400))) [
  | inl late ↦ rw late (from_days-IsDate last_day 86399 (omega arith) (omega arith))
  | inr in_range ↦
      rw in_range (from_days-IsDate (t / 86400) (t % 86400) (ground arith) (omega arith))
]

-- The date of a leap day, and the last date.
leap_day :
    sgmtime (pos 951782400)
    ≡ record { sec = 0; min = 0; hour = 0; mday = 29; mon = 2; year = 2000; wday = 2 }
unfolding sgmtime from_days set_date march_year days_before leap mday_of
leap_day = refl
