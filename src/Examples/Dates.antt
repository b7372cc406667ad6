-- ===== src/Examples/Dates.antt =====
-- The dates of internal/domain/cadence.go at work.
use replenishment_system.Common.{ℕ, ◌≤◌, ◌<◌, ◌≡◌, ◌↔◌, refl, arith, true}
use replenishment_system.Common.Int.{pos}
use replenishment_system.Common.Text.{text}
use replenishment_system.Calendar.{
  Date, date, is_leap, month_len, to_time, of_utc_day, before, add_days, days_until, year_start,
  month_start, utc_day,
}
use replenishment_system.Calendar.Days.{to_time-of_utc_day}
use replenishment_system.Calendar.Order.{before_iff, of_utc_day-to_time}
use replenishment_system.Calendar.Arith.{add_days-days_until, days_until-add_days}
use replenishment_system.Domain.Types.{ok}
use replenishment_system.Domain.Cadence.{next_occurrence_after}
use replenishment_system.Domain.Cadence.Next.{
  IsNext, next_occurrence_after-IsNext, next_occurrence_after_far,
}
use replenishment_system.Domain.Cadence.Keys.{idempotency_key_inj}
use replenishment_system.Examples.Data.{
  today_date, today_date-IsValid, order_date, order_date-IsValid,
}

-- 2026-03-01 and 2026-03-31
pub day_numbers : (to_time today_date ≡ 740041) × (to_time order_date ≡ 740071)
unfolding to_time utc_day year_start month_start is_leap month_len
day_numbers = (refl, refl)

old_anchor : Date
old_anchor = date 1 1 1

old_number : to_time old_anchor ≡ 366
unfolding old_anchor to_time utc_day year_start month_start is_leap month_len
old_number = refl

before_iff_example :
    (before today_date order_date ≡ true) ↔ (to_time today_date < to_time order_date)
before_iff_example = before_iff today_date order_date today_date-IsValid order_date-IsValid

to_time-of_utc_day_example : to_time (of_utc_day 740041) ≡ 740041
to_time-of_utc_day_example = to_time-of_utc_day 740041

of_utc_day-to_time_example : of_utc_day (to_time order_date) ≡ order_date
of_utc_day-to_time_example = of_utc_day-to_time order_date order_date-IsValid

add_days-days_until_example : add_days order_date (days_until order_date today_date) ≡ today_date
add_days-days_until_example =
    add_days-days_until order_date today_date today_date-IsValid
      (omega (arith, day_numbers.0, day_numbers.1)) (omega (arith, day_numbers.0, day_numbers.1))

days_until-add_days_example : days_until today_date (add_days today_date (pos 30)) ≡ pos 30
days_until-add_days_example = days_until-add_days today_date 30 (omega arith)

next_occurrence_after-IsNext_example :
    (seq : ℕ) × (d : Date) × (next_occurrence_after today_date (pos 30) order_date ≡ ok (seq, d))
    × IsNext today_date 30 order_date seq d
next_occurrence_after-IsNext_example =
    next_occurrence_after-IsNext today_date order_date 30 (omega arith, omega arith)
      order_date-IsValid (omega (arith, day_numbers.0, day_numbers.1))

next_occurrence_after_far_example :
    (seq : ℕ) × (d : Date) × (next_occurrence_after old_anchor (pos 30) today_date ≡ ok (seq, d))
    × (to_time d ≤ to_time today_date)
next_occurrence_after_far_example =
    next_occurrence_after_far old_anchor today_date 30 (omega arith, omega arith) today_date-IsValid
      (omega (arith, day_numbers.0, old_number))

idempotency_key_inj_example : (text "s1" ≡ text "s1") × (◌≡◌ {A = ℕ} 1 1)
idempotency_key_inj_example = idempotency_key_inj (text "s1") (text "s1") 1 1 refl
