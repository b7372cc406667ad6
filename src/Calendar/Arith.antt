-- ===== src/Calendar/Arith.antt =====
-- `AddDays` and `DaysUntil` of internal/domain/cadence.go, in day numbers.
use Prim.Native.Nat.{min}
use replenishment_system.Common.{ℕ, ◌+◌, ◌-◌, ◌≤◌, ◌<◌, ◌≡◌, ap, ◌∙◌, arith}
use replenishment_system.Common.Int.{ℤ, pos, negsuc, pos_part, ◌+ℤ◌}
use replenishment_system.Calendar.{Date, to_time, add_days, days_until, saturate, max_duration_days}
use replenishment_system.Calendar.Days.{IsValid, to_time-of_utc_day, of_utc_day-IsValid}
use replenishment_system.Calendar.Order.{to_time_inj}

pub add_days-IsValid : (d : Date) (n : ℤ) → IsValid (add_days d n)
unfolding add_days
add_days-IsValid d n = of_utc_day-IsValid _

pub to_time-add_days : (d : Date) (n : ℤ) → to_time (add_days d n) ≡ pos_part (pos (to_time d) +ℤ n)
unfolding add_days
to_time-add_days d n = to_time-of_utc_day _

pub to_time-add_days_pos : (d : Date) (n : ℕ) → to_time (add_days d (pos n)) ≡ to_time d + n
unfolding ◌+ℤ◌
to_time-add_days_pos d n = to_time-add_days d (pos n) ∙ ground arith

-- Up to 106751 days apart `DaysUntil` is the difference of the day numbers.
pub days_until_forward :
    (d e : Date)
    → to_time d ≤ to_time e
    → to_time e ≤ to_time d + max_duration_days
    → days_until d e ≡ pos (to_time e - to_time d)
unfolding days_until saturate
days_until_forward d e h k = ground arith

pub days_until_behind : (d e : Date) → to_time e < to_time d → (n : ℕ) × (days_until d e ≡ negsuc n)
unfolding days_until saturate
days_until_behind d e h = (min (to_time d - to_time e - 1) (max_duration_days - 1), ground arith)

-- Further apart it answers 106751 all the same.
pub days_until_far :
    (d e : Date)
    → to_time d + max_duration_days ≤ to_time e
    → days_until d e ≡ pos max_duration_days
unfolding days_until saturate
days_until_far d e h = ground arith

-- Adding the days from a date until a valid one that is at most 106751 days away, forwards or
-- backwards, gives the valid one.
pub add_days-days_until :
    (d e : Date)
    → IsValid e
    → to_time e ≤ to_time d + max_duration_days
    → to_time d ≤ to_time e + max_duration_days
    → add_days d (days_until d e) ≡ e
unfolding days_until saturate ◌+ℤ◌
add_days-days_until d e v h k =
    to_time_inj (add_days d (days_until d e)) e (add_days-IsValid d (days_until d e)) v
      (to_time-add_days d (days_until d e) ∙ ground arith)

-- `DaysUntil` measures what `AddDays` added, up to 106751 days.
pub days_until-add_days :
    (d : Date) (n : ℕ) → n ≤ max_duration_days → days_until d (add_days d (pos n)) ≡ pos n
days_until-add_days d n h =
    days_until_forward d (add_days d (pos n)) (omega (arith, to_time-add_days_pos d n))
      (omega (arith, to_time-add_days_pos d n))
    ∙ ap pos (omega (arith, to_time-add_days_pos d n))
