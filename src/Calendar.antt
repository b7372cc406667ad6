-- ===== src/Calendar.antt =====
-- `Date` and its methods (internal/domain/cadence.go), over the proleptic Gregorian calendar of
-- Go's package time. An instant at UTC midnight is the number of days since 0000-01-01.
-- A year is a natural number: `parseDate` accepts the years 0000 to 9999, and the clock is later.
pub mod Days
pub mod Order
pub mod Arith
use replenishment_system.Common.{
  ℕ, zero, suc, ◌+◌, ◌-◌, ◌*◌, ◌/◌, ◌%◌, Bool, true, false, not, ◌||◌, ltb, ◌==◌, if◌then◌else◌,
}
use replenishment_system.Common.Int.{ℤ, pos, negsuc, pos_part, sub_ℕ, ◌+ℤ◌, ltb_ℤ}

pub record Date : Type 0 where
  pub year : ℕ
  pub month : ℕ
  pub day : ℕ

unfoldable pub is_leap : ℕ → Bool
is_leap y = if y % 400 == 0 then true else if y % 100 == 0 then false else y % 4 == 0

unfoldable pub month_len : Bool → ℕ → ℕ
month_len leap m =
    if (m == 4) || (m == 6) || (m == 9) || (m == 11)
    then 30
    else if not (m == 2)
    then 31
    else if leap
    then 29
    else 28

abbrev pub date : ℕ → ℕ → ℕ → Date
date y m d = record { year = y; month = m; day = d }

unfoldable pub year_len : ℕ → ℕ
year_len y = if is_leap y then 366 else 365

-- Days from 0000-01-01 to the first of January; year 0 is a leap year.
unfoldable pub year_start : ℕ → ℕ
year_start y = y * 365 + (y + 3) / 4 - (y + 99) / 100 + (y + 399) / 400

-- Days of the year before month m, counted from 1.
unfoldable pub month_start : Bool → ℕ → ℕ
month_start leap zero = 0
month_start leap (suc zero) = 0
month_start leap (suc (suc m)) = month_start leap (suc m) + month_len leap (suc m)

-- `time.Date(y, m, d, 0, 0, 0, 0, time.UTC)`, which normalises months and days out of range.
unfoldable pub utc_day : ℕ → ℕ → ℕ → ℕ
utc_day y m d =
    let months = y * 12 + m - 1 in
    let year = months / 12 in year_start year + month_start (is_leap year) (months % 12 + 1) + d - 1

unfoldable pub seek_year : ℕ → ℕ → ℕ → ℕ × ℕ
seek_year zero y n = (y, n)
seek_year (suc fuel) y n =
    let later = seek_year fuel (y + 1) (n - year_len y) in
    if ltb n (year_len y) then (y, n) else later

unfoldable pub seek_month : Bool → ℕ → ℕ → ℕ → ℕ × ℕ
seek_month leap zero m n = (m, n)
seek_month leap (suc fuel) m n =
    let later = seek_month leap fuel (m + 1) (n - month_len leap m) in
    if ltb n (month_len leap m) then (m, n) else later

-- The year that the day falls in and the days before it in that year. No year is longer than 366
-- days, so the search starts at n / 366.
unfoldable pub year_and_rest : ℕ → ℕ × ℕ
year_and_rest n = let first = n / 366 in seek_year (n + 1) first (n - year_start first)

unfoldable pub month_and_rest : Bool → ℕ → ℕ × ℕ
month_and_rest leap n = seek_month leap 11 1 n

-- `Date{Year: t.Year(), Month: t.Month(), Day: t.Day()}`
unfoldable pub of_utc_day : ℕ → Date
of_utc_day n =
    let (y, rest) = year_and_rest n in
    let (m, before_day) = month_and_rest (is_leap y) rest in date y m (before_day + 1)

unfoldable pub new_date : ℕ → ℕ → ℕ → Date
new_date y m d = of_utc_day (utc_day y m d)

unfoldable pub to_time : Date → ℕ
to_time d = utc_day d.year d.month d.day

-- A result before 0000-01-01 is outside the model; the sum stops there.
unfoldable pub add_days : Date → ℤ → Date
add_days d n = of_utc_day (pos_part (pos (to_time d) +ℤ n))

unfoldable pub before : Date → Date → Bool
before d other =
    if not (d.year == other.year)
    then ltb d.year other.year
    else if not (d.month == other.month)
    then ltb d.month other.month
    else ltb d.day other.day

unfoldable pub after : Date → Date → Bool
after d other = before other d

-- `Time.Sub` saturates at the largest int64 of nanoseconds, which is 106751 whole days and a bit;
-- `int(….Hours() / 24)` drops the bit.
abbrev pub max_duration_days : ℕ
max_duration_days = 106751

unfoldable pub saturate : ℤ → ℤ
saturate n =
    if ltb_ℤ (pos max_duration_days) n
    then pos max_duration_days
    else if ltb_ℤ n (negsuc (max_duration_days - 1))
    then negsuc (max_duration_days - 1)
    else n

unfoldable pub days_until : Date → Date → ℤ
days_until d other = saturate (sub_ℕ (to_time other) (to_time d))
