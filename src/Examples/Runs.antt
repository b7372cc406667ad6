-- ===== src/Examples/Runs.antt =====
-- Runs of internal/materialize on the small database.
use replenishment_system.Common.{◌-◌, ◌≡◌, refl, arith, true}
use replenishment_system.Common.Text.{text, text_eq}
use replenishment_system.Calendar.{before, after}
use replenishment_system.Store.Rows.{select, count_rows, exists_row, first_row}
use replenishment_system.Store.Schedules.{with_id, get_schedule}
use replenishment_system.Store.Occurrences.{
  is_open, is_planned, of_schedule, planned_after, latest_date,
}
use replenishment_system.Materialize.{start_cursor, run, refresh_next_run_date}
use replenishment_system.Materialize.Horizon.{InReach}
use replenishment_system.Materialize.Full.{Full, run-Full, run_again-Full}
use replenishment_system.Materialize.Earliest.{NextRun, refresh_next_run_date-NextRun}
use replenishment_system.Store.Scope.{filter_own}
use replenishment_system.Domain.Types.{ok}
use replenishment_system.Examples.Data.{
  owner, live, shop, shop-WellFormed, service, service-FreshIds, today_date, today_date-IsValid,
  order_date,
}
use replenishment_system.Examples.Dates.{day_numbers}

one_planned : count_rows (planned_after (text "s1") today_date) shop.occurrences ≡ 1
unfolding count_rows text_eq after before
one_planned = refl

there : exists_row (with_id (text "s1")) shop.schedules ≡ true
unfolding exists_row text_eq
there = refl

last_open :
    start_cursor today_date
      (latest_date (select (of_schedule (text "s1") is_open) shop.occurrences))
    ≡ order_date
unfolding latest_date select text_eq after before
last_open = refl

near :
    InReach today_date 30
      (service.mat.horizon - count_rows (planned_after (text "s1") today_date) shop.occurrences)
      (start_cursor today_date
        (latest_date (select (of_schedule (text "s1") is_open) shop.occurrences)))
near =
    rw (one_planned, last_open)
      (record { rounds = omega arith; reach = omega (arith, day_numbers.0, day_numbers.1) })

run-Full_example :
    Full service.mat live today_date
      (service.mat.horizon - count_rows (planned_after (text "s1") today_date) shop.occurrences)
      (run service.mat live today_date shop)
run-Full_example =
    run-Full service.mat live today_date 30 shop shop-WellFormed service-FreshIds today_date-IsValid
      refl refl (omega arith, omega arith) there (omega (arith, one_planned)) near

run_again-Full_example :
    Full service.mat live today_date 0
      (run service.mat live today_date (run service.mat live today_date shop).1)
run_again-Full_example =
    run_again-Full service.mat live today_date 30 shop shop-WellFormed service-FreshIds
      today_date-IsValid refl refl (omega arith, omega arith) there (omega (arith, one_planned))
      near

found_live : (get_schedule (text "s1") owner.scope shop).0 ≡ ok live
unfolding get_schedule select first_row text_eq filter_own
found_live = refl

refresh_next_run_date-NextRun_example :
    NextRun today_date owner.scope live
      (select (of_schedule (text "s1") is_planned) shop.occurrences)
      (refresh_next_run_date live today_date shop)
refresh_next_run_date-NextRun_example =
    refresh_next_run_date-NextRun owner.scope live today_date shop found_live
