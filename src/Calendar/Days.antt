-- ===== src/Calendar/Days.antt =====
-- Calendar dates of internal/domain/cadence.go and their day numbers.
use replenishment_system.Common.{
  ℕ, zero, suc, ◌+◌, ◌-◌, ◌*◌, ◌/◌, ◌%◌, ◌≤◌, ◌<◌, ◌≡◌, refl, arith, Bool,
}
use replenishment_system.Calendar.{
  Date, is_leap, month_len, year_len, year_start, month_start, utc_day, seek_year, seek_month,
  year_and_rest, month_and_rest, of_utc_day, to_time,
}

pub record IsValid (d : Date) : Type 0 where
  pub month_in : (1 ≤ d.month) × (d.month ≤ 12)
  pub day_in : (1 ≤ d.day) × (d.day ≤ month_len (is_leap d.year) d.month)

pub year_start-suc : (y : ℕ) → year_start (suc y) ≡ year_start y + year_len y
unfolding year_start year_len is_leap
year_start-suc y = ground arith

pub year_len_bounds : (y : ℕ) → (365 ≤ year_len y) × (year_len y ≤ 366)
unfolding year_len
year_len_bounds y = ground arith

year_start-le : (y : ℕ) → year_start y ≤ 366 * y
unfolding year_start
year_start-le y = omega arith

pub month_start-suc :
    (leap : Bool) (m : ℕ) → 1 ≤ m → month_start leap (suc m) ≡ month_start leap m + month_len leap m
unfolding month_start
month_start-suc leap zero h = absurd (omega arith)
month_start-suc leap (suc m) h = refl

pub month_start-year : (y : ℕ) → month_start (is_leap y) 13 ≡ year_len y
unfolding month_start month_len year_len
month_start-year y = ground arith

-- `p` is a year and a rest within it, which together come to `n` days.
record SplitsYear (n : ℕ) (p : ℕ × ℕ) : Type 0 where
  total : year_start p.0 + p.1 ≡ n
  within : p.1 < year_len p.0

seek_year-SplitsYear :
    (fuel y n : ℕ) → n < fuel → SplitsYear (year_start y + n) (seek_year fuel y n)
unfolding seek_year
seek_year-SplitsYear zero y n h = absurd (omega arith)
seek_year-SplitsYear (suc fuel) y n h =
    ground (
      arith,
      year_start-suc y,
      year_len_bounds y,
      seek_year-SplitsYear fuel (y + 1) (n - year_len y),
    )

year_and_rest-SplitsYear : (n : ℕ) → SplitsYear n (year_and_rest n)
unfolding year_and_rest
year_and_rest-SplitsYear n = ground (
  arith,
  year_start-le (n / 366),
  seek_year-SplitsYear (n + 1) (n / 366) (n - year_start (n / 366)),
)

record SplitsMonth (leap : Bool) (n : ℕ) (p : ℕ × ℕ) : Type 0 where
  total : month_start leap p.0 + p.1 ≡ n
  month_in : (1 ≤ p.0) × (p.0 ≤ 12)
  within : p.1 < month_len leap p.0

seek_month-SplitsMonth :
    (leap : Bool) (fuel m n : ℕ)
    → 1 ≤ m
    → m + fuel ≡ 12
    → month_start leap m + n < month_start leap 13
    → SplitsMonth leap (month_start leap m + n) (seek_month leap fuel m n)
unfolding seek_month
seek_month-SplitsMonth leap zero m n h f b = ground (arith, month_start-suc leap 12)
seek_month-SplitsMonth leap (suc fuel) m n h f b =
    ground (
      arith,
      month_start-suc leap m,
      seek_month-SplitsMonth leap fuel (m + 1) (n - month_len leap m),
    )

month_and_rest-SplitsMonth :
    (y n : ℕ) → n < year_len y → SplitsMonth (is_leap y) n (month_and_rest (is_leap y) n)
unfolding month_and_rest month_start
month_and_rest-SplitsMonth y n h =
    ground (arith, month_start-year y, seek_month-SplitsMonth (is_leap y) 11 1 n)

-- Within the calendar `time.Date` has nothing to normalise.
pub to_time-eq :
    (d : Date)
    → IsValid d
    → to_time d + 1 ≡ year_start d.year + month_start (is_leap d.year) d.month + d.day
unfolding to_time utc_day
to_time-eq d v =
    let same_year : (d.year * 12 + d.month - 1) / 12 ≡ d.year = omega arith in
    let same_month : (d.year * 12 + d.month - 1) % 12 + 1 ≡ d.month = omega arith in
    rw (same_year, same_month) (omega arith)

-- Every day number is that of a valid date.
pub of_utc_day-IsValid : (n : ℕ) → IsValid (of_utc_day n)
unfolding of_utc_day
of_utc_day-IsValid n =
    let y = year_and_rest n in
    ground (arith, year_and_rest-SplitsYear n, month_and_rest-SplitsMonth y.0 y.1)

-- The day number of the date of a day number is that day number.
pub to_time-of_utc_day : (n : ℕ) → to_time (of_utc_day n) ≡ n
to_time-of_utc_day n = omega (arith, to_time-eq (of_utc_day n) (of_utc_day-IsValid n), sum)
  where
    y : ℕ × ℕ
    y = year_and_rest n

    sum :
        year_start (of_utc_day n).year
          + month_start (is_leap (of_utc_day n).year) (of_utc_day n).month
          + (of_utc_day n).day
        ≡ n + 1
    sum =
        unfold of_utc_day in
        ground (arith, year_and_rest-SplitsYear n, month_and_rest-SplitsMonth y.0 y.1)
