-- ===== src/Times/Calendar/Count.antt =====
-- The days of the calendar, counted one year and one month at a time.
use libcn.Prelude.{
  ℕ, zero, suc, ◌+◌, ◌-◌, ◌*◌, ◌/◌, ◌≤◌, ◌<◌, ◌≡◌, refl, arith, ltb, Bool-cases, inl, inr, ltb→lt,
  List, [], ◌∷◌,
}
use package.libcn.Times.Calendar.{days_before, leap, march_year}

-- The days of the first `n` years from 1970 on.
unfoldable pub days_of_years : ℕ → ℕ
days_of_years zero = 0
days_of_years (suc n) = days_of_years n + 365 + leap (1970 + n)

-- The days of the months of a year, January first.
abbrev pub month_days : ℕ → List ℕ
month_days l = 31 ∷ (28 + l) ∷ 31 ∷ 30 ∷ 31 ∷ 30 ∷ 31 ∷ 31 ∷ 30 ∷ 31 ∷ 30 ∷ 31 ∷ []

abbrev pub nth : List ℕ → ℕ → ℕ
nth [] i = 0
nth (x ∷ xs) zero = x
nth (x ∷ xs) (suc i) = nth xs i

-- The days of the first `n` months.
abbrev pub sum_first : List ℕ → ℕ → ℕ
sum_first [] n = 0
sum_first (x ∷ xs) zero = 0
sum_first (x ∷ xs) (suc n) = x + sum_first xs n

pub days_before_suc : (y : ℕ) → days_before (y + 1) ≡ days_before y + 365 + leap (y + 1)
unfolding days_before leap
days_before_suc y = ground arith

pub leap-le : (y : ℕ) → leap y ≤ 1
unfolding leap
leap-le y = ground arith

-- January 1, as the closed formula counts it.
pub days_of_years-closed : (n : ℕ) → days_of_years n + 719468 ≡ days_before (1969 + n) + 306
unfolding days_of_years days_before
days_of_years-closed zero = refl
days_of_years-closed (suc n) =
    let e : 1969 + suc n ≡ (1969 + n) + 1 = omega arith in
    let e' : 1970 + n ≡ (1969 + n) + 1 = omega arith in
    rw (e, e', days_before_suc (1969 + n)) (omega (arith, days_of_years-closed n))

-- The year that the formula of the code estimates is the right one or the next.
year_estimate :
    (days : ℕ)
    → (days_before ((days + 2) * 400 / 146097 - 1) ≤ days)
      × (days < days_before ((days + 2) * 400 / 146097 + 1))
unfolding days_before
year_estimate days = (omega arith, omega arith)

-- A day before the estimated year is in the year before.
early_year :
    (y days : ℕ)
    → days_before (y - 1) ≤ days
    → days < days_before y
    → (days_before (y - 1) + (365 + leap y + days - days_before y) ≡ days)
      × (days < days_before (y - 1 + 1))
early_year zero days low early = absurd (omega (arith, early_none))
  where
    early_none : days_before 0 ≡ 0
    early_none = unfold days_before in refl
early_year (suc y) days low early =
    let e : suc y ≡ y + 1 = omega arith in
    let e' : suc y - 1 ≡ y = omega arith in
    let low' : days_before y ≤ days = rw e' at low in
    let early' : days < days_before (y + 1) = rw e at early in
    rw (e', e, days_before_suc y)
      (omega (arith, days_before_suc y), omega (arith, days_before_suc y))

-- The year and the day that `march_year` gives: the day lies in the year.
pub march_year_lem :
    (days : ℕ)
    → (days_before (march_year days).0 + (march_year days).1 ≡ days)
      × (days < days_before ((march_year days).0 + 1))
unfolding march_year
march_year_lem days =
    let y : ℕ = (days + 2) * 400 / 146097 in
    let (low, high) = year_estimate days in
    elim (Bool-cases (ltb days (days_before y))) [
      | inl early ↦ rw early (early_year y days low (ltb→lt days (days_before y) early))
      | inr late ↦ rw late (ground arith, high)
    ]
