-- ===== src/Examples/Sweeps.antt =====
-- The passes of internal/sweep on the small database.
use replenishment_system.Common.{List, ◌≢◌, [], arith, false, refl, some, ◌&&◌, ◌∷◌, ◌≡◌}
use replenishment_system.Common.Text.{text, text_eq, text_eq_ne}
use replenishment_system.Domain.Types.{Schedule, ScheduleStatus}
use replenishment_system.Store.Rows.{exists_row}
use replenishment_system.Store.Db.{Db}
use replenishment_system.Store.Integrity.{WellFormed}
use replenishment_system.Store.Schedules.{with_id}
use replenishment_system.Calendar.Days.{IsValid}
use replenishment_system.Calendar.{date, is_leap, month_len}
use replenishment_system.Domain.Cadence.{idempotency_key, validate_interval}
use replenishment_system.Sweep.{Sweeper, arm_due, resume_due}
use replenishment_system.Sweep.Kept.{sweep-WellFormed}
use replenishment_system.Sweep.Due.{Untouched, has_come_due, resume_due-Untouched}
use replenishment_system.Examples.Data.{
  today_date-IsValid, live, order, service, service-ClockOk, shop, today_date,
}

abbrev sweeper : Sweeper
sweeper = record { svc = service; clock = service.clock; id_less = λ a b. false }

-- A pause that ends today, and an order that is due tomorrow.
abbrev due : Db
due = record shop {
  schedules =
      record live { status = ScheduleStatus.paused; paused_until = some today_date }
      ∷ record live { id = text "s3"; origin_order_id = text "s3" }
      ∷ [];
  occurrences =
      record order {
        schedule_id = text "s3";
        scheduled_for = date 2026 3 2;
        idempotency_key = idempotency_key (text "s3") 1;
      }
      ∷ [];
}

next_day-IsValid : IsValid (date 2026 3 2)
unfolding month_len is_leap
next_day-IsValid = record {
  month_in = (omega arith, omega arith);
  day_in = (omega arith, ground arith);
}

ids_apart : text "s1" ≢ text "s3"
unfolding text_eq
ids_apart = text_eq_ne (text "s1") (text "s3") refl

due-WellFormed : WellFormed due
unfolding validate_interval exists_row text_eq
due-WellFormed = record {
  schedules_ok = (
    record {
      interval_ok = refl;
      discount_ok = omega arith;
      anchor_ok = today_date-IsValid;
      pause_ok = λ e. cc;
    },
    (
      record {
        interval_ok = refl;
        discount_ok = omega arith;
        anchor_ok = today_date-IsValid;
        pause_ok = λ e. cc;
      },
      tt,
    ),
  );
  schedules_unique = (((ids_apart, ids_apart), tt), (tt, tt));
  items_ok = record {
    each_ok = (record { quantity_low = omega arith; quantity_high = omega arith }, tt);
    items_unique = (tt, tt);
    owned = (refl, tt);
  };
  events_ok = record { numbered = tt; events_unique = tt };
  rows_ok = (
    record {
      key_is = refl;
      date_ok = next_day-IsValid;
      number_ok = omega arith;
      order_placed = λ e. cc;
    },
    tt,
  );
  rows_unique = (tt, tt);
}

sweep-WellFormed_example :
    WellFormed (resume_due sweeper due).1 × WellFormed (arm_due sweeper due).1
sweep-WellFormed_example = sweep-WellFormed sweeper due service-ClockOk due-WellFormed

not_among_due :
    exists_row (λ (s : Schedule). with_id (text "s3") s && has_come_due sweeper s) due.schedules
    ≡ false
unfolding exists_row text_eq
not_among_due = refl

resume_due-Untouched_example : Untouched (text "s3") due (resume_due sweeper due).1
resume_due-Untouched_example =
    resume_due-Untouched sweeper (text "s3") due service-ClockOk due-WellFormed not_among_due

-- The database without its planned order, so that no order is due.
abbrev idle : Db
idle = record shop { occurrences = [] }

abbrev due_rows : List Schedule
due_rows = record live { status = ScheduleStatus.paused; paused_until = some today_date } ∷ []
